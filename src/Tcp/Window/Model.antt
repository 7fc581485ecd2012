-- ===== src/Tcp/Window/Model.antt =====
-- The receive window as the list of its packets, and what `insert` and `confirm` do to the list.
use tcp_port.Base.{
  List, Option, [], drop, get_elem?, if◌then◌else◌, length, suc, take, zero, ℕ, ◌++◌, ◌<◌, ◌∷◌, ◌≡◌,
  ◌≤◌,
}
use tcp_port.Base.Int.{leb_ℤ, pos}
use tcp_port.Tcp.Packet.{Packet}
use tcp_port.Tcp.Seq.{compare_tcp_seq}
use tcp_port.Tcp.Window.{Search, Window, at_slot, deliver, is_old, read_slot, search_step, to_list}

-- The ring of `w` holds exactly the packets `ps`, in order, from `start` on.
pub record Represents (w : Window) (ps : List Packet) : Type 0 where
  pub start_in : w.start < length w.buffer
  pub count : w.size ≡ length ps
  pub fits : w.size ≤ length w.buffer
  pub holds : (i : ℕ) → i < w.size → read_slot w.buffer w.start i ≡ get_elem? ps i

-- The place of a packet, looked for from the end of the first `n` packets.
unfoldable pub search_list : List Packet → Packet → ℕ → Search
unfolding search_step
search_list ps packet zero = at_slot 0
search_list ps packet (suc i) = search_step (get_elem? ps i) packet i (search_list ps packet i)

abbrev pub insert_at : List Packet → ℕ → Packet → List Packet
insert_at ps idx packet = take idx ps ++ packet ∷ drop idx ps

abbrev pub place_list : Search → List Packet → Packet → List Packet
place_list (at_slot idx) ps packet = insert_at ps idx packet
place_list _ ps packet = ps

unfoldable pub insert_list : ℕ → List Packet → Packet → List Packet
unfolding search_list
insert_list expect ps packet =
    if is_old expect packet then ps else place_list (search_list ps packet (length ps)) ps packet

-- What `confirm` makes of the packets: those that stay, those that are sent, `expectBegin`.
pub record Confirmed : Type 0 where
  pub kept : List Packet
  pub sent : List Packet
  pub expect : ℕ

abbrev sent_first : Option Packet → Confirmed → Confirmed
sent_first out c = record c { sent = to_list out ++ c.sent }

unfoldable pub confirm_list : ℕ → ℕ → List Packet → Confirmed
confirm_list ack expect [] = record { kept = []; sent = []; expect = expect }
confirm_list ack expect (p ∷ ps) =
    let (out, e) = deliver expect p in
    let rest = sent_first out (confirm_list ack e ps) in
    if leb_ℤ (pos 0) (compare_tcp_seq p.seq ack)
    then record { kept = p ∷ ps; sent = []; expect = expect }
    else rest
