-- ===== src/Tcp/Connection/Valid.antt =====
-- What holds of every connection that the assembler knows, and that no packet makes it panic.
use tcp_port.Tcp.Connection.{finish}
use tcp_port.Tcp.Stream
use tcp_port.Base.{List, [], arith, refl, true, ℕ, ◌≡◌}
use tcp_port.Base.Outcome.{ok}
use tcp_port.Tcp.Connection.{Connection}
use tcp_port.Tcp.Packet.{Packet}
use tcp_port.Tcp.Stream.{NetStream, append_packet, confirm_packet, new_net_stream}
use tcp_port.Tcp.Window.Model.{Represents}
use tcp_port.Base.{Bool-cases, if◌then◌else◌, inl, inr, not, ◌&&◌, ◌++◌, ◌||◌, ◌∷◌}
use tcp_port.Base.Outcome.{Outcome}
use tcp_port.Base.Slice.{Bytes}
use tcp_port.Tcp.Connection.{
  Endpoint, equals, flush_older_than, mark_closed, new_tcp_connection, on_receive, transfer,
}
use tcp_port.Tcp.Stream.{send_all}
use tcp_port.Tcp.Window.{Window}
use tcp_port.Tcp.Window.Confirm.{confirm_refines}
use tcp_port.Tcp.Window.Insert.{insert_refines}
use tcp_port.Tcp.Window.Model.{confirm_list, insert_list}
use tcp_port.Base.{Bool, false}
use tcp_port.Tcp.Connection.{note_client}
use tcp_port.Base.{subst, sym, ◌∙◌}
use tcp_port.Tcp.Connection.{receive_from}

-- A stream whose window holds its packets in a ring, and whose channel is open.
pub record IsLive (s : NetStream) : Type 0 where
  pub packets : List Packet
  pub represents : Represents s.window packets
  pub open_channel : s.is_open ≡ true

pub record IsValid (c : Connection) : Type 0 where
  pub up : IsLive c.up_stream
  pub down : IsLive c.down_stream

new_net_stream-IsLive : IsLive new_net_stream
new_net_stream-IsLive = record {
  packets = [];
  represents = record {
    start_in = omega arith;
    count = refl;
    fits = omega arith;
    holds = λ i h. absurd (omega arith);
  };
  open_channel = refl;
}

-- The outcome is a live stream that is marked closed or not as `s` is.
abbrev StaysLive : NetStream → Outcome NetStream → Type 0
StaysLive s out = (s' : NetStream) × (out ≡ ok s') × IsLive s' × (s'.closed ≡ s.closed)

append_packet-StaysLive :
    (s : NetStream) (tcp : Packet) → IsLive s → StaysLive s (append_packet s tcp)
unfolding append_packet
append_packet-StaysLive s tcp v = elim (Bool-cases s.ignore) [
  | inl ig ↦ (s, ground arith, v, refl)
  | inr no_ig ↦
      let (w, e, r, _, _) = insert_refines s.window v.packets tcp v.represents in
      (
        record s { window = w },
        ground (arith, e),
        record {
          packets = insert_list s.window.expect_begin v.packets tcp;
          represents = r;
          open_channel = v.open_channel;
        },
        refl,
      )
]

send_all-StaysLive :
    (s : NetStream) (w : Window) (sent kept : List Packet)
    → IsLive s
    → Represents w kept
    → StaysLive s (send_all s (w, sent))
unfolding send_all
send_all-StaysLive s w [] kept v r = (
  record s { window = w },
  refl,
  record { packets = kept; represents = r; open_channel = v.open_channel },
  refl,
)
send_all-StaysLive s w (p ∷ ps) kept v r = (
  record s { window = w; pending = s.pending ++ p ∷ ps },
  ground (arith, v.open_channel),
  record { packets = kept; represents = r; open_channel = v.open_channel },
  refl,
)

confirm_packet-StaysLive : (s : NetStream) (ack : ℕ) → IsLive s → StaysLive s (confirm_packet s ack)
unfolding confirm_packet
confirm_packet-StaysLive s ack v = elim (Bool-cases s.ignore) [
  | inl ig ↦ (s, ground arith, v, refl)
  | inr no_ig ↦
      let c = confirm_list ack s.window.expect_begin v.packets in
      let (w, e, r, _) = confirm_refines s.window v.packets ack v.represents in
      let (s', e', v', k) = send_all-StaysLive s w c.sent c.kept v r in
      (s', ground (arith, e, e'), v', k)
]

maybe_confirm-StaysLive :
    (s : NetStream) (tcp : Packet)
    → IsLive s
    → StaysLive s (if tcp.is_ack then confirm_packet s tcp.ack else ok s)
maybe_confirm-StaysLive s tcp v = elim (Bool-cases tcp.is_ack) [
  | inl a ↦ rw a (confirm_packet-StaysLive s tcp.ack v)
  | inr n ↦ rw n (s, refl, v, refl)
]

if_window :
    (b : Bool) (s : NetStream) (ps : List Packet)
    → Represents s.window ps
    → Represents (if b then record s { closed = true } else s).window ps
if_window true s ps r = r
if_window false s ps r = r

mark_closed-IsLive : (s : NetStream) (tcp : Packet) → IsLive s → IsLive (mark_closed s tcp)
unfolding mark_closed
mark_closed-IsLive s tcp v = record {
  packets = v.packets;
  represents = if_window (tcp.is_fin || tcp.is_rst) s v.packets v.represents;
  open_channel = ground (arith, v.open_channel);
}

-- What a packet does to the two streams: both stay live, the sender's is closed by FIN or RST.
transfer-IsLive :
    (send confirmed : NetStream) (tcp : Packet)
    → IsLive send
    → IsLive confirmed
    → (a b : NetStream) × (transfer send confirmed tcp ≡ ok (a, b))
      × IsLive a
      × IsLive b
      × (a.closed ≡ (if tcp.is_fin || tcp.is_rst then true else send.closed))
      × (b.closed ≡ confirmed.closed)
unfolding transfer
transfer-IsLive send confirmed tcp v w =
    let (a, e, va, ca) = append_packet-StaysLive send tcp v in
    let (b, e', vb, cb) = maybe_confirm-StaysLive confirmed tcp w in
    (
      mark_closed a tcp,
      b,
      ground (arith, e, e'),
      mark_closed-IsLive a tcp va,
      vb,
      ground (arith, ca),
      cb,
    )

-- FIN or RST: the sender has ended its direction.
abbrev pub ends_stream : Packet → Bool
ends_stream tcp = tcp.is_fin || tcp.is_rst

record Took (from_client : Bool) (n : Connection) (tcp : Packet) : Type 0 where
  next : Connection
  returns : receive_from from_client n tcp ≡ ok next
  valid : IsValid next
  same_key : next.key ≡ n.key
  same_client : next.client_id ≡ n.client_id
  up_closed :
      next.up_stream.closed ≡ (if from_client && ends_stream tcp then true else n.up_stream.closed)
  down_closed :
      next.down_stream.closed
      ≡ (if not from_client && ends_stream tcp then true else n.down_stream.closed)

receive_from-Took : (b : Bool) (n : Connection) (tcp : Packet) → IsValid n → Took b n tcp
unfolding receive_from
receive_from-Took true n tcp v =
    let (a, b, e, va, vb, ca, cb) = transfer-IsLive n.up_stream n.down_stream tcp v.up v.down in
    record {
      next = record n { up_stream = a; down_stream = b };
      returns = rw e;
      valid = record { up = va; down = vb };
      same_key = refl;
      same_client = refl;
      up_closed = ca;
      down_closed = cb;
    }
receive_from-Took false n tcp v =
    let (a, b, e, va, vb, ca, cb) = transfer-IsLive n.down_stream n.up_stream tcp v.down v.up in
    record {
      next = record n { down_stream = a; up_stream = b };
      returns = rw e;
      valid = record { up = vb; down = va };
      same_key = refl;
      same_client = refl;
      up_closed = cb;
      down_closed = ca;
    }

-- `note_client` changes the client at most.
note_client-parts :
    (c : Connection) (src : Endpoint) (timestamp : ℕ)
    → let n = note_client c src timestamp in
      (n.up_stream ≡ c.up_stream)
      × (n.down_stream ≡ c.down_stream)
      × (n.key ≡ c.key)
      × (n.client_id ≡ (if c.is_rpc then c.client_id else src))
unfolding note_client
note_client-parts c src timestamp = elim (Bool-cases c.is_rpc) [
  | inl old ↦ simp old (refl, refl, refl, refl)
  | inr new ↦ simp new (refl, refl, refl, refl)
]

-- The connection behind `onReceive` of a packet from `src`, whichever end that is.
pub record Received (c : Connection) (src : Endpoint) (tcp : Packet) (timestamp : ℕ) : Type 0 where
  pub next : Connection
  pub returns : on_receive c src tcp timestamp ≡ ok next
  pub valid : IsValid next
  pub same_key : next.key ≡ c.key
  pub client : next.client_id ≡ (if c.is_rpc then c.client_id else src)
  pub up_closed :
      next.up_stream.closed
      ≡ (if equals next.client_id src && ends_stream tcp then true else c.up_stream.closed)
  pub down_closed :
      next.down_stream.closed
      ≡ (if not (equals next.client_id src) && ends_stream tcp then true else c.down_stream.closed)

-- On a valid connection `onReceive` does not panic and leaves a valid connection with the same key.
-- The client is the sender of the first packet. A FIN or RST marks the upstream closed if the
-- client sent it, and the downstream if the other end did; no other mark changes.
pub on_receive-Received :
    (c : Connection) (src : Endpoint) (tcp : Packet) (timestamp : ℕ)
    → IsValid c
    → Received c src tcp timestamp
unfolding on_receive
on_receive-Received c src tcp timestamp v =
    let n = note_client c src timestamp in
    let (eu, ed, ek, ec) = note_client-parts c src timestamp in
    let vn : IsValid n = record {
      up = subst IsLive (sym eu) v.up;
      down = subst IsLive (sym ed) v.down;
    } in
    let t = receive_from-Took (equals n.client_id src) n tcp vn in
    record {
      next = t.next;
      returns = t.returns;
      valid = t.valid;
      same_key = t.same_key ∙ ek;
      client = t.same_client ∙ ec;
      up_closed = rw (t.same_client, t.up_closed, eu);
      down_closed = rw (t.same_client, t.down_closed, ed);
    }

-- Finishing a valid connection does not panic.
pub finish-IsValid : (c : Connection) → IsValid c → (c' : Connection) × (finish c ≡ ok c')
unfolding finish Stream.finish
finish-IsValid c v = (
  record c {
    up_stream = record c.up_stream { is_open = false };
    down_stream = record c.down_stream { is_open = false };
  },
  ground (arith, v.up.open_channel, v.down.open_channel),
)

pub flush_older_than-IsValid :
    (c : Connection) → IsValid c → (c' : Connection) × (flush_older_than c ≡ ok c')
unfolding flush_older_than
flush_older_than-IsValid c v =
    finish-IsValid
      (record c {
        up_stream = record c.up_stream { closed = true };
        down_stream = record c.down_stream { closed = true };
      })
      (record {
        up = record {
          packets = v.up.packets;
          represents = v.up.represents;
          open_channel = v.up.open_channel;
        };
        down = record {
          packets = v.down.packets;
          represents = v.down.represents;
          open_channel = v.down.open_channel;
        };
      })

pub new_tcp_connection-IsValid : (key : Bytes) → IsValid (new_tcp_connection key)
unfolding new_tcp_connection
new_tcp_connection-IsValid key = record { up = new_net_stream-IsLive; down = new_net_stream-IsLive }
