-- ===== src/Tcp/Window/Confirm.antt =====
-- `confirm` on the ring is `confirm_list` on the list of packets, and never panics.
use tcp_port.Base.{
  Bool-cases, List, [], ap, arith, get_elem?, inl, inr, length, length-set, none, refl, some, ℕ,
  ◌%◌, ◌++◌, ◌+◌, ◌<◌, ◌∙◌, ◌∷◌, ◌≡◌, ◌≤◌,
}
use tcp_port.Base.Int.{leb_ℤ, pos}
use tcp_port.Base.Outcome.{ok}
use tcp_port.Tcp.Packet.{Packet}
use tcp_port.Tcp.Seq.{compare_tcp_seq}
use tcp_port.Tcp.Window.{Sweep, confirm_loop, read_slot, swept}
use tcp_port.Tcp.Window.Model.{confirm_list}
use tcp_port.Base.{Option, append-nil, append_assoc, suc, sym}
use tcp_port.Tcp.Window.{Window, confirm, deliver, finish_confirm, to_list, write_slot}
use tcp_port.Tcp.Window.Model.{Represents}
use tcp_port.Tcp.Window.Ring.{read-write_slot}
use native.Mathlib.Nat.{mod-add-mod}

-- The loop stops at index `at`, with the slots from there on holding the packets that are kept.
record Swept (rest : List Packet) (idx start ack : ℕ) (s : Sweep) : Type 0 where
  stop : ℕ
  after : Sweep
  ends : confirm_loop (length rest) idx start ack s ≡ ok (stop, after)
  expects : after.expect ≡ (confirm_list ack s.expect rest).expect
  sends : after.sent ≡ s.sent ++ (confirm_list ack s.expect rest).sent
  same_ring : length after.slots ≡ length s.slots
  stops : stop + length (confirm_list ack s.expect rest).kept ≡ idx + length rest
  keeps :
      (i : ℕ)
      → i < length (confirm_list ack s.expect rest).kept
      → read_slot after.slots start (stop + i) ≡ get_elem? (confirm_list ack s.expect rest).kept i

-- The slots behind the first one, once it is cleared.
after_first :
    (slots : List (Option Packet)) (start idx : ℕ) (p : Packet) (ps : List Packet)
    → start < length slots
    → idx + suc (length ps) ≤ length slots
    → ((i : ℕ) → i < suc (length ps) → read_slot slots start (idx + i) ≡ get_elem? (p ∷ ps) i)
    → (i : ℕ) → i < length ps
    → read_slot (write_slot slots start idx none) start (idx + 1 + i) ≡ get_elem? ps i
after_first slots start idx p ps hs hl h i hi =
    let e : idx + 1 + i ≡ idx + suc i = omega arith in
    rw e (
      ground (
        arith,
        read-write_slot slots start hs idx (idx + suc i) none (omega arith) (omega arith),
        h (suc i),
      ))

confirm_loop-Swept :
    (rest : List Packet) (idx start ack : ℕ) (s : Sweep)
    → start < length s.slots
    → idx + length rest ≤ length s.slots
    → ((i : ℕ) → i < length rest → read_slot s.slots start (idx + i) ≡ get_elem? rest i)
    → Swept rest idx start ack s
unfolding confirm_loop confirm_list
confirm_loop-Swept [] idx start ack s hs hl h = record {
  stop = idx;
  after = s;
  ends = refl;
  expects = refl;
  sends = sym (append-nil s.sent);
  same_ring = refl;
  stops = refl;
  keeps = λ i k. absurd (omega arith);
}
confirm_loop-Swept (p ∷ ps) idx start ack s hs hl h =
    let first : read_slot s.slots start idx ≡ some p =
      let e : idx ≡ idx + 0 = omega arith in ap (read_slot s.slots start) e ∙ h 0 (omega arith) in
    let len = length-set s.slots ((idx + start) % length s.slots) none in
    elim (Bool-cases (leb_ℤ (pos 0) (compare_tcp_seq p.seq ack))) [
      | inl acked ↦ record {
        stop = idx;
        after = s;
        ends = ground (arith, first);
        expects = rw acked;
        sends = rw acked (sym (append-nil s.sent));
        same_ring = refl;
        stops = rw acked;
        keeps = rw acked h;
      }
      | inr later ↦
          let ih =
            confirm_loop-Swept ps (idx + 1) start ack (swept s start idx p) (rw len hs)
              (rw len (omega arith)) (after_first s.slots start idx p ps hs (omega arith) h) in
          record {
            stop = ih.stop;
            after = ih.after;
            ends = ground (arith, first, ih.ends);
            expects = rw later ih.expects;
            sends = rw later (ih.sends ∙ append_assoc s.sent (to_list (deliver s.expect p).0) _);
            same_ring = ih.same_ring ∙ len;
            stops = rw later (omega (arith, ih.stops));
            keeps = rw later ih.keeps;
          }
    ]

index_after :
    (slots : List (Option Packet)) (start stop i : ℕ)
    → read_slot slots ((start + stop) % length slots) i ≡ read_slot slots start (stop + i)
index_after slots start stop i =
    let a : i + (start + stop) % length slots ≡ (start + stop) % length slots + i = omega arith in
    let b : start + stop + i ≡ stop + i + start = omega arith in rw (a, mod-add-mod, b)

-- The window behind `confirm` holds what the loop has kept.
finish_confirm-Represents :
    (w : Window) (ps : List Packet) (ack : ℕ) (after : Sweep) (stop : ℕ) (kept : List Packet)
    → Represents w ps
    → length after.slots ≡ length w.buffer
    → stop + length kept ≡ length ps
    → ((i : ℕ) → i < length kept → read_slot after.slots w.start (stop + i) ≡ get_elem? kept i)
    → Represents (finish_confirm w ack (stop, after)).0 kept
unfolding finish_confirm
finish_confirm-Represents w ps ack after stop kept r len stops keeps = record {
  start_in = omega (arith, r.start_in);
  count = omega (arith, r.count);
  fits = omega (arith, r.fits);
  holds = λ i h. index_after after.slots w.start stop i ∙ keeps i (omega (arith, r.count));
}

-- On a window that holds the packets `ps` in order, `confirm` does not panic. It sends the packets
-- of `confirm_list`, in order, and leaves a window that holds the packets kept, with its
-- `expectBegin`.
pub confirm_refines :
    (w : Window) (ps : List Packet) (ack : ℕ)
    → Represents w ps
    → let c = confirm_list ack w.expect_begin ps in
      (w' : Window) × (confirm w ack ≡ ok (w', c.sent))
      × Represents w' c.kept
      × (w'.expect_begin ≡ c.expect)
unfolding confirm
confirm_refines w ps ack r =
    let s : Sweep = record { slots = w.buffer; expect = w.expect_begin; sent = [] } in
    let t =
      confirm_loop-Swept ps 0 w.start ack s r.start_in (omega (arith, r.fits, r.count))
        (λ i h. let e : 0 + i ≡ i = omega arith in rw e (r.holds i (omega (arith, r.count)))) in
    (
      (finish_confirm w ack (t.stop, t.after)).0,
      ground (arith, r.count, t.ends, t.sends),
      finish_confirm-Represents w ps ack t.after t.stop _ r t.same_ring (omega (arith, t.stops))
          t.keeps,
      t.expects,
    )
