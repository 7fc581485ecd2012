-- ===== src/Tcp/Window/Copy.antt =====
-- Go's `copy` read by index, and that `expand` keeps every packet at its place.
use tcp_port.Base.Cuts.{get_or-drop}
use tcp_port.Base.{
  List, Option, [], ap, arith, drop, get_or, if◌then◌else◌, leb, length, length-replicate, ltb,
  none, refl, replicate, suc, take, zero, ℕ, ◌&&◌, ◌*◌, ◌+◌, ◌-◌, ◌<◌, ◌∷◌, ◌≡◌, ◌≤◌,
}
use tcp_port.Tcp.Packet.{Packet}
use tcp_port.Tcp.Window.{Window, copy, copy_at, expand, read_slot}
use tcp_port.Base.{length-drop, length-take}
use tcp_port.Tcp.Window.Ring.{wrap_index}
use tcp_port.Base.Cuts.{get_or-take}

module _ {A : Type 0} where
  pub get_or-copy :
      (dst src : List A) (j : ℕ) (d : A)
      → length src ≤ length dst
      → get_or (copy dst src) j d ≡ (if ltb j (length src) then get_or src j d else get_or dst j d)
  unfolding copy
  get_or-copy [] [] j d h = ground arith
  get_or-copy [] (s ∷ src) j d h = absurd (omega arith)
  get_or-copy (x ∷ dst) [] j d h = ground arith
  get_or-copy (x ∷ dst) (s ∷ src) zero d h = ground arith
  get_or-copy (x ∷ dst) (s ∷ src) (suc j) d h = ground (arith, get_or-copy dst src j d)

  pub length-copy : (dst src : List A) → length (copy dst src) ≡ length dst
  unfolding copy
  length-copy [] src = refl
  length-copy (x ∷ dst) [] = refl
  length-copy (x ∷ dst) (s ∷ src) = ap suc (length-copy dst src)

  pub length-copy_at : (k : ℕ) (dst src : List A) → length (copy_at k dst src) ≡ length dst
  unfolding copy_at
  length-copy_at zero dst src = length-copy dst src
  length-copy_at (suc k) [] src = refl
  length-copy_at (suc k) (x ∷ dst) src = ap suc (length-copy_at k dst src)

  pub get_or-copy_at :
      (k : ℕ) (dst src : List A) (j : ℕ) (d : A)
      → k + length src ≤ length dst
      → get_or (copy_at k dst src) j d
        ≡ (if leb k j && ltb j (k + length src) then get_or src (j - k) d else get_or dst j d)
  unfolding copy_at
  get_or-copy_at zero dst src j d h = ground (arith, get_or-copy dst src j d)
  get_or-copy_at (suc k) [] src j d h = absurd (omega arith)
  get_or-copy_at (suc k) (x ∷ dst) src zero d h = ground arith
  get_or-copy_at (suc k) (x ∷ dst) src (suc j) d h = ground (arith, get_or-copy_at k dst src j d)

pub length-expand : (w : Window) → length (expand w).buffer ≡ length w.buffer * 2
unfolding expand
length-expand w =
    let blank : List (Option Packet) = replicate (length w.buffer * 2) none in
    let size = length-replicate (length w.buffer * 2) (let p : Option Packet = none in p) in
    ground (
      arith,
      size,
      length-copy_at 0 blank (take w.size (drop w.start w.buffer)),
      length-copy_at 0 blank (drop w.start w.buffer),
      length-copy_at (length w.buffer - w.start) (copy_at 0 blank (drop w.start w.buffer))
          (take (w.start + w.size - length w.buffer) w.buffer),
    )

module _ (buf : List (Option Packet)) (start size j : ℕ) where
  abbrev blank : List (Option Packet)
  blank = replicate (length buf * 2) none

  length-blank : length blank ≡ length buf * 2
  length-blank = length-replicate (length buf * 2) (let p : Option Packet = none in p)

  -- the first branch of `expand`: the packets lie in one piece
  get_or-one_piece :
      start + size < length buf
      → j < size
      → get_or (copy_at 0 blank (take size (drop start buf))) j none ≡ get_or buf (start + j) none
  get_or-one_piece h hj = ground (
    arith,
    length-blank,
    get_or-copy_at 0 blank (take size (drop start buf)) j none,
    length-take size (drop start buf),
    length-drop start buf,
    get_or-take size (drop start buf) j none,
    get_or-drop start buf j none,
  )

  -- the second branch: they lie in two pieces, or reach the end of the ring
  get_or-two_pieces :
      start < length buf
      → size ≤ length buf
      → length buf ≤ start + size
      → j < size
      → get_or
          (copy_at
            (length buf - start)
            (copy_at 0 blank (drop start buf))
            (take (start + size - length buf) buf))
          j
          none
        ≡ (if ltb (j + start) (length buf)
            then get_or buf (start + j) none
            else get_or buf (j + start - length buf) none)
  get_or-two_pieces hs hn hl hj = ground (
    arith,
    length-blank,
    length-copy_at 0 blank (drop start buf),
    get_or-copy_at (length buf - start) (copy_at 0 blank (drop start buf))
        (take (start + size - length buf) buf) j none,
    get_or-copy_at 0 blank (drop start buf) j none,
    length-take (start + size - length buf) buf,
    length-drop start buf,
    get_or-take (start + size - length buf) buf (j - (length buf - start)) none,
    get_or-drop start buf j none,
  )

-- Every packet of a window is at the same place of its expanded ring.
pub read_slot-expand :
    (w : Window) (j : ℕ)
    → w.start < length w.buffer
    → w.size ≤ length w.buffer
    → j < w.size
    → read_slot (expand w).buffer (expand w).start j ≡ read_slot w.buffer w.start j
unfolding expand
read_slot-expand w j hs hn hj = ground (
  arith,
  length-expand w,
  wrap_index (length w.buffer * 2) j 0,
  wrap_index (length w.buffer) j w.start,
  get_or-one_piece w.buffer w.start w.size j,
  get_or-two_pieces w.buffer w.start w.size j,
)
