-- ===== src/Tcp/Window/Ring.antt =====
-- Reading and writing the ring of a receive window by the place of a packet, counted from `start`.
use native.Mathlib.Decide.{dec_lt, ℕ_discrete}
use native.Mathlib.Nat.{mod-eq-sub-mod, mod-eq_of_lt}
use tcp_port.Base.{
  List, Option, arith, get_or-set_ne, get_or-set_self, if◌then◌else◌, leb, length, length-set, ltb,
  none, refl, suc, zero, ℕ, ◌%◌, ◌&&◌, ◌+◌, ◌-◌, ◌<◌, ◌==◌, ◌∙◌, ◌≡◌, ◌≢◌,
}
use tcp_port.Tcp.Packet.{Packet}
use tcp_port.Tcp.Window.{read_slot, shift, write_slot}

-- Where place `i` of the ring lies, with no division.
pub wrap_index :
    (len i start : ℕ)
    → i < len
    → start < len
    → (i + start) % len ≡ (if ltb (i + start) len then i + start else i + start - len)
wrap_index len i start hi hs = elim (dec_lt (i + start) len) [
  | yes p ↦ ground (arith, mod-eq_of_lt p)
  | no p ↦ ground (
    arith,
    mod-eq-sub-mod {n = i + start} {m = len} (omega arith),
    mod-eq_of_lt {n = i + start - len} {m = len} (omega arith),
  )
]

pub wrap_index-ne :
    (len i j start : ℕ)
    → i < len
    → j < len
    → start < len
    → i ≢ j
    → (i + start) % len ≢ (j + start) % len
wrap_index-ne len i j start hi hj hs ne =
    ground (arith, wrap_index len i start hi hs, wrap_index len j start hj hs)

module _ (buffer : List (Option Packet)) (start : ℕ) (hs : start < length buffer) where
  pub read-write_slot :
      (i j : ℕ) (v : Option Packet)
      → i < length buffer
      → j < length buffer
      → read_slot (write_slot buffer start i v) start j
        ≡ (if i == j then v else read_slot buffer start j)
  read-write_slot i j v hi hj =
      rw (length-set buffer ((i + start) % length buffer) v) (elim (ℕ_discrete i j) [
        | yes e ↦ rw (← e) (
            ground
              (arith, get_or-set_self buffer ((i + start) % length buffer) v none (omega arith)))
        | no ne ↦ ground (
          arith,
          get_or-set_ne buffer ((i + start) % length buffer) ((j + start) % length buffer) v none
              (wrap_index-ne (length buffer) i j start hi hj hs ne),
        )
      ])

pub length-shift :
    (buffer : List (Option Packet)) (start idx k : ℕ)
    → length (shift buffer start idx k) ≡ length buffer
unfolding shift
length-shift buffer start idx zero = refl
length-shift buffer start idx (suc k) =
    length-shift (write_slot buffer start (idx + k + 1) (read_slot buffer start (idx + k))) start
      idx k
    ∙ length-set buffer ((idx + k + 1 + start) % length buffer) (read_slot buffer start (idx + k))

-- The loop of `insert` moves the places `idx .. idx + k - 1` one place up and leaves the others.
pub read_slot-shift :
    (k : ℕ) (buffer : List (Option Packet)) (start idx j : ℕ)
    → start < length buffer
    → idx + k < length buffer
    → j < length buffer
    → read_slot (shift buffer start idx k) start j ≡ (
        if ltb idx j && leb j (idx + k)
        then read_slot buffer start (j - 1)
        else read_slot buffer start j)
unfolding shift
read_slot-shift zero buffer start idx j hs hk hj = ground arith
read_slot-shift (suc k) buffer start idx j hs hk hj =
    let moved = read_slot buffer start (idx + k) in
    let next = write_slot buffer start (idx + k + 1) moved in
    let len : length next ≡ length buffer = length-set buffer _ moved in
    ground (
      arith,
      read_slot-shift k next start idx j (rw len hs) (rw len (omega arith)) (rw len hj),
      read-write_slot buffer start hs (idx + k + 1) j moved (omega arith) hj,
      read-write_slot buffer start hs (idx + k + 1) (j - 1) moved (omega arith) (omega arith),
    )
