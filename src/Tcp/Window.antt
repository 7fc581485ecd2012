-- ===== src/Tcp/Window.antt =====
-- `receiveWindow` of tcpport/assembler.go: a ring of packets, ordered by sequence number.
-- A slot of the ring is a pointer, so an option. The window owns the packets that it holds (a
-- slot is cleared before its packet is cut and sent), so they are values here.
pub mod Ring
pub mod Copy
pub mod Model
pub mod Insert
pub mod Confirm
pub mod Ordered
pub mod Reassembly
pub mod Delivery
use tcp_port.Base.Outcome.{◌>>=◌}
use tcp_port.Base.{
  Bool, List, Option, [], drop, get_or, if◌then◌else◌, leb, length, ltb, none, not, replicate, set,
  some, suc, take, zero, ℕ, ◌%◌, ◌&&◌, ◌*◌, ◌++◌, ◌+◌, ◌-◌, ◌==◌, ◌||◌, ◌∷◌,
}
use tcp_port.Base.Int.{eq_ℤ, leb_ℤ, ltb_ℤ, pos}
use tcp_port.Base.Outcome.{Outcome, ok, panic}
use tcp_port.Tcp.Packet.{Packet, seq_end}
use tcp_port.Tcp.Seq.{compare_tcp_seq, sub32}

pub record Window : Type 0 where
  pub size : ℕ
  pub start : ℕ
  pub buffer : List (Option Packet)
  pub last_ack : ℕ
  pub expect_begin : ℕ

abbrev pub new_receive_window : ℕ → Window
new_receive_window initial_size = record {
  size = 0;
  start = 0;
  buffer = replicate initial_size none;
  last_ack = 0;
  expect_begin = 0;
}

-- `w.buffer[(i + w.start) % len(w.buffer)]`
abbrev pub read_slot : List (Option Packet) → ℕ → ℕ → Option Packet
read_slot buffer start i = get_or buffer ((i + start) % length buffer) none

abbrev pub write_slot : List (Option Packet) → ℕ → ℕ → Option Packet → List (Option Packet)
write_slot buffer start i v = set buffer ((i + start) % length buffer) v

-- How the search for a place ends: at an index, at a packet with the same sequence number, or
-- with the use of a nil pointer.
pub data Search : Type 0 where
  at_slot : ℕ → Search
  duplicate crashed : Search

-- One round of the search at the packet before index `i + 1`, and how the rounds below it end.
pub search_step : Option Packet → Packet → ℕ → Search → Search
search_step none packet i below = crashed
search_step (some prev) packet i below =
    let result = compare_tcp_seq prev.seq packet.seq in
    if eq_ℤ result (pos 0)
    then duplicate
    else if ltb_ℤ result (pos 0)
    then at_slot (suc i)
    else below

-- The loop `for ; idx > 0; idx--` of `insert`.
pub search_slot : List (Option Packet) → ℕ → Packet → ℕ → Search
search_slot buffer start packet zero = at_slot 0
search_slot buffer start packet (suc i) =
    search_step (read_slot buffer start i) packet i (search_slot buffer start packet i)

-- The loop that moves the `k` packets from index `idx` on one slot up, from the last one down.
pub shift : List (Option Packet) → ℕ → ℕ → ℕ → List (Option Packet)
shift buffer start idx zero = buffer
shift buffer start idx (suc k) =
    shift (write_slot buffer start (idx + k + 1) (read_slot buffer start (idx + k))) start idx k

-- Go's `copy` into the front of a slice, and into the slice from index `k` on.
pub copy {ℓ} : {A : Type ℓ} → List A → List A → List A
copy [] src = []
copy (d ∷ dst) [] = d ∷ dst
copy (d ∷ dst) (s ∷ src) = s ∷ copy dst src

pub copy_at {ℓ} : {A : Type ℓ} → ℕ → List A → List A → List A
unfolding copy
copy_at zero dst src = copy dst src
copy_at (suc k) [] src = []
copy_at (suc k) (d ∷ dst) src = d ∷ copy_at k dst src

unfoldable pub expand : Window → Window
unfolding copy_at
expand w =
    let len = length w.buffer in
    let end = w.start + w.size in
    let buf : List (Option Packet) = replicate (len * 2) none in
    let moved =
      if ltb end len
      then copy_at 0 buf (take w.size (drop w.start w.buffer))
      else copy_at (len - w.start) (copy_at 0 buf (drop w.start w.buffer))
          (take (end - len) w.buffer) in
    record w { start = 0; buffer = moved }

-- The end of `insert`: `packet` goes to index `idx`.
pub store : Window → ℕ → Packet → Window
unfolding shift
store w idx packet =
    let made = if idx == w.size then w.buffer else shift w.buffer w.start idx (w.size - idx) in
    record w { size = w.size + 1; buffer = write_slot made w.start idx (some packet) }

pub place : Search → Window → Packet → Outcome Window
place crashed w packet = panic
place duplicate w packet = ok w
place (at_slot idx) w packet =
    ok (store (if w.size == length w.buffer then expand w else w) idx packet)

-- The two early returns of `insert`: nothing new in the packet.
abbrev pub is_old : ℕ → Packet → Bool
is_old expect packet =
    not (expect == 0) && leb_ℤ (pos 0) (compare_tcp_seq expect (seq_end packet))
    || length packet.payload == 0

unfoldable pub insert : Window → Packet → Outcome Window
unfolding place search_slot search_step store expand
insert w packet =
    if is_old w.expect_begin packet
    then ok w
    else place (search_slot w.buffer w.start packet w.size) w packet

-- What the loop of `confirm` does with a packet below the acknowledged number: the packet that it
-- sends, if any, and the new `expectBegin`. `dup` is unsigned, so `dup < 0` never holds.
unfoldable pub deliver : ℕ → Packet → Option Packet × ℕ
deliver expect packet =
    let dup = sub32 expect packet.seq in
    if not (expect == 0) && ltb_ℤ (pos 0) (compare_tcp_seq expect packet.seq)
    then if leb (length packet.payload) dup
      then (none, expect)
      else (some (record packet { payload = drop dup packet.payload }), seq_end packet)
    else (some packet, seq_end packet)

abbrev pub to_list : Option Packet → List Packet
to_list none = []
to_list (some p) = p ∷ []

-- The variables of the loop of `confirm`: the ring, `expectBegin`, and what went to the channel.
pub record Sweep : Type 0 where
  pub slots : List (Option Packet)
  pub expect : ℕ
  pub sent : List Packet

abbrev pub swept : Sweep → ℕ → ℕ → Packet → Sweep
swept s start idx packet =
    let (out, e) = deliver s.expect packet in
    record { slots = write_slot s.slots start idx none; expect = e; sent = s.sent ++ to_list out }

-- The loop `for ; idx < w.size; idx++` of `confirm`, with the rounds that are left.
pub confirm_loop : ℕ → ℕ → ℕ → ℕ → Sweep → Outcome (ℕ × Sweep)
confirm_loop zero idx start ack s = ok (idx, s)
confirm_loop (suc k) idx start ack s = elim (read_slot s.slots start idx) [
  | none ↦ panic
  | some packet ↦
      if leb_ℤ (pos 0) (compare_tcp_seq packet.seq ack)
      then ok (idx, s)
      else confirm_loop k (idx + 1) start ack (swept s start idx packet)
]

-- `confirm` behind its loop.
pub finish_confirm : Window → ℕ → ℕ × Sweep → Window × List Packet
finish_confirm w ack (idx, s) =
    let newer = ltb_ℤ (compare_tcp_seq w.last_ack ack) (pos 0) || w.last_ack == 0 in
    (
      record {
        size = w.size - idx;
        start = (w.start + idx) % length s.slots;
        buffer = s.slots;
        last_ack = if newer then ack else w.last_ack;
        expect_begin = s.expect;
      },
      s.sent,
    )

-- `confirm`: the new window, and the packets that are sent to the channel, in order.
unfoldable pub confirm : Window → ℕ → Outcome (Window × List Packet)
unfolding confirm_loop finish_confirm deliver
confirm w ack = do
  r ←
      confirm_loop w.size 0 w.start ack
        (record { slots = w.buffer; expect = w.expect_begin; sent = [] })
  ok (finish_confirm w ack r)
