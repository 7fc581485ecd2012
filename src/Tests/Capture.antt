-- ===== src/Tests/Capture.antt =====
-- Runs of tcpport/assembler.go and tcpport/text.go.
use tcp_port.Tcp.Window.{insert}
use tcp_port.Tcp.Assembler.Valid.{IsValid as IsValidAssembler}
use tcp_port.Tcp.Connection.Valid.{IsValid as IsValidConnection}
use tcp_port.Tcp.Assembler.{flush_older_than as flush_assembler}
use tcp_port.Tcp.Assembler.Dict
use tcp_port.Base.{
  List, [], arith, false, if◌then◌else◌, inr, ltb, none, refl, some, true, ℕ, ◌∷◌, ◌≡◌, ◌≤◌,
}
use tcp_port.Base.Int.{pos, ◌<ℤ◌}
use tcp_port.Base.Outcome.{ok}
use tcp_port.Base.Slice.{Bytes}
use tcp_port.Base.Text.{codes}
use tcp_port.Tcp.Assembler.{Assembler, assemble}
use tcp_port.Tcp.Assembler.Flush.{flush_older_than-lookup}
use tcp_port.Tcp.Assembler.Valid.{Succeeds, assemble-IsValid}
use tcp_port.Tcp.Connection.{Connection, Endpoint, is_closed, new_tcp_connection}
use tcp_port.Tcp.Connection.Valid.{Received, new_tcp_connection-IsValid, on_receive-Received}
use tcp_port.Tcp.Packet.{Packet}
use tcp_port.Tcp.Seq.{compare_tcp_seq}
use tcp_port.Tcp.Seq.Order.{compare_tcp_seq_wrap}
use tcp_port.Tcp.Stream.{NetStream, discard_all, new_net_stream, read}
use tcp_port.Tcp.Stream.Reads.{ReadOf, discard_all-length, read-ReadOf}
use tcp_port.Tcp.Wildcard.{matches, wildcard_match, wildcard_match-matches}
use tcp_port.Tcp.Window.{Window, confirm}
use tcp_port.Tcp.Window.Confirm.{confirm_refines}
use tcp_port.Tcp.Window.Insert.{Becomes, insert_refines}
use tcp_port.Tcp.Window.Model.{Represents, confirm_list, insert_list}
use tcp_port.Tcp.Window.Reassembly.{payloads, segment}
use tcp_port.Base.{get_elem?, suc, zero, ◌<◌}
use tcp_port.Tcp.Window.{read_slot}
use tcp_port.Tcp.Window.Delivery.{InOrder, confirm-segment, insert-InOrder}

abbrev segment_at : ℕ → Bytes → Packet
segment_at seq payload = record {
  seq = seq;
  ack = 0;
  is_syn = false;
  is_ack = true;
  is_fin = false;
  is_rst = false;
  payload = payload;
}

abbrev first : Packet
first = segment_at 100 (codes "GET ")

abbrev second : Packet
second = segment_at 104 (codes "/x")

abbrev syn : Packet
syn = record first { is_syn = true; is_ack = false; payload = [] }

-- A window of two slots with the second segment in it; the first byte expected is number 100.
abbrev window : Window
window = record {
  size = 1;
  start = 0;
  buffer = some second ∷ none ∷ [];
  last_ack = 0;
  expect_begin = 100;
}

window-Represents : Represents window (second ∷ [])
window-Represents = record {
  start_in = omega arith;
  count = refl;
  fits = omega arith;
  holds = λ i h. let e : i ≡ 0 = omega (arith, h) in rw e refl;
}

insert_refines_example : Becomes window (insert window first) (insert_list 100 (second ∷ []) first)
insert_refines_example = insert_refines window (second ∷ []) first window-Represents

confirm_refines_example :
    (w' : Window) × (confirm window 106 ≡ ok (w', (confirm_list 106 100 (second ∷ [])).sent))
    × Represents w' (confirm_list 106 100 (second ∷ [])).kept
    × (w'.expect_begin ≡ (confirm_list 106 100 (second ∷ [])).expect)
confirm_refines_example = confirm_refines window (second ∷ []) 106 window-Represents

window-InOrder : InOrder 100 window
window-InOrder = record {
  packets = second ∷ [];
  represents = window-Represents;
  ordered = (tt, tt);
  in_span = ((omega arith, omega arith, omega arith), tt);
}

insert-InOrder_example : (w' : Window) × (insert window first ≡ ok w') × InOrder 100 w'
insert-InOrder_example =
    insert-InOrder 100 window first window-InOrder (omega arith, omega arith, omega arith)

-- The window with both segments in it.
abbrev full_window : Window
full_window = record window { size = 2; buffer = some first ∷ some second ∷ [] }

full_window-holds :
    (i : ℕ) → i < 2 → read_slot full_window.buffer 0 i ≡ get_elem? (first ∷ second ∷ []) i
full_window-holds zero h = refl
full_window-holds (suc zero) h = refl
full_window-holds (suc (suc i)) h = absurd (omega (arith, h))

full_window-Represents : Represents full_window (first ∷ second ∷ [])
full_window-Represents = record {
  start_in = omega arith;
  count = refl;
  fits = omega arith;
  holds = full_window-holds;
}

abbrev stream : Bytes
stream = codes "GET /x"

confirm-segment_example :
    (w' : Window) × (sent : List Packet) × (confirm full_window 106 ≡ ok (w', sent))
    × (payloads sent ≡ segment stream 100 100 w'.expect_begin)
    × (106 ≤ w'.expect_begin)
    × (w'.expect_begin ≤ 106)
confirm-segment_example =
    confirm-segment stream 100 full_window (first ∷ second ∷ []) 106 full_window-Represents
      (omega arith, omega arith) (omega arith, omega arith, omega arith)
      (
        record { from = omega arith; to = omega arith; bytes = refl },
        (record { from = omega arith; to = omega arith; bytes = refl }, tt),
      )
      (inr (omega arith, inr (omega arith, omega arith))) (omega arith) (omega arith)

abbrev client : Endpoint
client = record { ip = codes "10.0.0.1"; port = 40000 }

abbrev server : Endpoint
server = record { ip = codes "10.0.0.2"; port = 3306 }

connection-IsValid : IsValidConnection (new_tcp_connection (codes "k"))
connection-IsValid = new_tcp_connection-IsValid (codes "k")

on_receive-Received_example : Received (new_tcp_connection (codes "k")) client syn 7
on_receive-Received_example =
    on_receive-Received (new_tcp_connection (codes "k")) client syn 7 connection-IsValid

abbrev assembler : Assembler
assembler = record {
  connection_dict = some [];
  filter_ip = [];
  filter_port = 3306;
  detector = none;
  started = [];
  ended = [];
}

assembler-IsValid : IsValidAssembler assembler
assembler-IsValid = record { dict = []; there = refl; good = tt }

assemble-IsValid_example : Succeeds (assemble assembler client server syn 7)
assemble-IsValid_example = assemble-IsValid assembler client server syn 7 assembler-IsValid

abbrev entry : Bytes × Connection
entry = (codes "k", new_tcp_connection (codes "k"))

abbrev busy : Assembler
busy = record assembler { connection_dict = some (entry ∷ []) }

busy-IsValid : IsValidAssembler busy
busy-IsValid = record {
  dict = entry ∷ [];
  there = refl;
  good = (
    (
      connection-IsValid,
      unfold new_tcp_connection in refl,
      unfold new_tcp_connection is_closed in refl,
    ),
    tt,
  );
}

flush_older_than-lookup_example :
    (a' : Assembler) × (d' : List (Bytes × Connection)) × (flush_assembler busy 5 ≡ ok a')
    × (a'.connection_dict ≡ some d')
    × IsValidAssembler a'
    × ((k : Bytes)
        → Dict.lookup k d' ≡ elim (Dict.lookup k (entry ∷ [])) [
          | none ↦ none
          | some c ↦ if ltb c.last_timestamp 5 then none else some c
        ])
flush_older_than-lookup_example =
    flush_older_than-lookup busy 5 (entry ∷ []) busy-IsValid refl (unfold Dict.lookup in refl, tt)

-- A stream of which "G" is left and "ET " waits in the channel, which is closed.
abbrev ended_stream : NetStream
ended_stream = record new_net_stream {
  pending = segment_at 101 (codes "ET ") ∷ [];
  is_open = false;
  remain = codes "G";
}

read-ReadOf_example : ReadOf ended_stream 4 (read ended_stream 4)
read-ReadOf_example = read-ReadOf ended_stream 4

discard_all-length_example : discard_all 5 ended_stream 0 ≡ some 4
discard_all-length_example = discard_all-length 5 ended_stream 0 refl (omega arith)

compare_tcp_seq_wrap_example :
    (pos 0 <ℤ compare_tcp_seq 4294967290 5) × (pos 0 <ℤ compare_tcp_seq 5 4294967290)
compare_tcp_seq_wrap_example =
    compare_tcp_seq_wrap 4294967290 5 (omega arith) (omega arith) (omega arith) (omega arith)

wildcard_match-matches_example :
    wildcard_match (codes "com.x.Demo") (codes "com.*De?o")
    ≡ matches (codes "com.x.Demo") (codes "com.*De?o")
wildcard_match-matches_example = wildcard_match-matches (codes "com.x.Demo") (codes "com.*De?o")
