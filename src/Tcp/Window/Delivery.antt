-- ===== src/Tcp/Window/Delivery.antt =====
-- What `insert` and `confirm` of `receiveWindow` promise of the ring itself: the order of its packets,
-- and the bytes that go to the channel.
use tcp_port.Tcp.Window.{insert}
use tcp_port.Base.{All, List, length, ℕ, ◌+◌, ◌≡◌, ◌≤◌}
use tcp_port.Base.Outcome.{ok}
use tcp_port.Base.Slice.{Bytes}
use tcp_port.Tcp.Packet.{Packet}
use tcp_port.Tcp.Window.{Window, confirm}
use tcp_port.Tcp.Window.Confirm.{confirm_refines}
use tcp_port.Tcp.Window.Insert.{insert_refines}
use tcp_port.Tcp.Window.Model.{Represents, confirm_list, insert_list}
use tcp_port.Tcp.Window.Ordered.{InSpan, IsOrdered, insert_list-IsOrdered}
use tcp_port.Tcp.Window.Reassembly.{
  Covers, InStream, IsSegment, IsUnwrapped, confirm_list-segment, payloads, segment,
}

-- A window that holds packets in the order of their sequence numbers, all in one span of 2^31.
pub record InOrder (lo : ℕ) (w : Window) : Type 0 where
  pub packets : List Packet
  pub represents : Represents w packets
  pub ordered : IsOrdered packets
  pub in_span : All (InSpan lo) packets

-- A packet of the same span of 2^31 sequence numbers, which does not cross the wrap, is inserted
-- without a panic, and leaves the window with its packets in order.
pub insert-InOrder :
    (lo : ℕ) (w : Window) (packet : Packet)
    → InOrder lo w
    → InSpan lo packet
    → (w' : Window) × (insert w packet ≡ ok w') × InOrder lo w'
insert-InOrder lo w packet o span =
    let (w', e, r, _, _) = insert_refines w o.packets packet o.represents in
    let (ordered, in_span) =
      insert_list-IsOrdered lo w.expect_begin o.packets packet o.in_span span o.ordered in
    (
      w',
      e,
      record {
        packets = insert_list w.expect_begin o.packets packet;
        represents = r;
        ordered = ordered;
        in_span = in_span;
      },
    )

-- Let the window hold segments of a stream that spans less than 2^31 sequence numbers and does not
-- cross the wrap, and let them cover the bytes from `expectBegin` up to the acknowledged number.
-- Then `confirm` does not panic, and the packets that it sends carry exactly the bytes of the
-- stream from the old `expectBegin` up to the new one, which has reached the acknowledged number
-- and lies within the stream.
pub confirm-segment :
    (stream : Bytes) (base : ℕ) (w : Window) (ps : List Packet) (ack : ℕ)
    → Represents w ps
    → IsUnwrapped stream base
    → InStream stream base w.expect_begin
    → All (IsSegment stream base) ps
    → Covers stream base ack w.expect_begin ps
    → base ≤ ack
    → ack ≤ base + length stream
    → (w' : Window) × (sent : List Packet) × (confirm w ack ≡ ok (w', sent))
      × (payloads sent ≡ segment stream base w.expect_begin w'.expect_begin)
      × (ack ≤ w'.expect_begin)
      × (w'.expect_begin ≤ base + length stream)
confirm-segment stream base w ps ack r u i segments covers low high =
    let (w', e, _, expects) = confirm_refines w ps ack r in
    let (bytes, _, reached, within) =
      confirm_list-segment stream base ack w.expect_begin ps u i segments covers low high in
    (
      w',
      (confirm_list ack w.expect_begin ps).sent,
      e,
      rw expects bytes,
      rw expects reached,
      rw expects within,
    )
