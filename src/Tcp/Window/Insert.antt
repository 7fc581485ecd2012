-- ===== src/Tcp/Window/Insert.antt =====
-- `insert` on the ring is `insert_list` on the list of packets, and never panics.
use tcp_port.Base.{
  List, [], ap, arith, drop, get_elem?, if◌then◌else◌, length, length-append, ltb, refl, some, suc,
  take, take-append-drop, zero, ℕ, ◌+◌, ◌-◌, ◌<◌, ◌==◌, ◌∷◌, ◌≡◌, ◌≤◌,
}
use tcp_port.Tcp.Packet.{Packet}
use tcp_port.Tcp.Window.{
  Search, Window, at_slot, crashed, duplicate, read_slot, search_slot, search_step, store,
}
use tcp_port.Tcp.Window.Model.{Represents, insert_at, search_list}
use native.Mathlib.Decide.{ℕ_discrete}
use tcp_port.Base.{length-set, ◌%◌, ◌∙◌}
use tcp_port.Base.Outcome.{ok}
use tcp_port.Tcp.Window.{expand, insert, shift}
use tcp_port.Tcp.Window.Copy.{length-expand, read_slot-expand}
use tcp_port.Tcp.Window.Model.{insert_list}
use tcp_port.Tcp.Window.Ring.{length-shift, read-write_slot, read_slot-shift}
use tcp_port.Base.{Bool-cases, inl, inr}
use tcp_port.Base.Outcome.{Outcome}
use tcp_port.Tcp.Window.{is_old, place}
use tcp_port.Tcp.Window.Model.{place_list}

search_slot-search_list :
    (w : Window) (ps : List Packet) (packet : Packet)
    → Represents w ps
    → (n : ℕ) → n ≤ w.size
    → search_slot w.buffer w.start packet n ≡ search_list ps packet n
unfolding search_slot search_list
search_slot-search_list w ps packet r zero h = refl
search_slot-search_list w ps packet r (suc i) h =
    rw (r.holds i h, search_slot-search_list w ps packet r i (omega arith))

abbrev pub Within : ℕ → Search → Type 0
Within n (at_slot i) = i ≤ n
Within n duplicate = Unit
Within n crashed = ⊥

get_elem?-in_range :
    {A : Type 0} (xs : List A) (i : ℕ) → i < length xs → (x : A) × (get_elem? xs i ≡ some x)
get_elem?-in_range [] i h = absurd (omega arith)
get_elem?-in_range (x ∷ xs) zero h = (x, refl)
get_elem?-in_range (x ∷ xs) (suc i) h = get_elem?-in_range xs i (omega arith)

pub search_list-Within :
    (ps : List Packet) (packet : Packet) (n : ℕ)
    → n ≤ length ps
    → Within n (search_list ps packet n)
unfolding search_list search_step
search_list-Within ps packet zero h = omega arith
search_list-Within ps packet (suc i) h =
    let (x, e) = get_elem?-in_range ps i h in rw e (ground (arith, search_list-Within ps packet i))

get_elem?-insert_at :
    (ps : List Packet) (idx : ℕ) (packet : Packet) (i : ℕ)
    → idx ≤ length ps
    → get_elem? (insert_at ps idx packet) i ≡ (
        if ltb i idx
        then get_elem? ps i
        else if i == idx
        then some packet
        else get_elem? ps (i - 1))
get_elem?-insert_at ps zero packet zero h = refl
get_elem?-insert_at ps zero packet (suc i) h = ground arith
get_elem?-insert_at [] (suc idx) packet i h = absurd (omega arith)
get_elem?-insert_at (p ∷ ps) (suc idx) packet zero h = ground arith
get_elem?-insert_at (p ∷ ps) (suc idx) packet (suc i) h =
    ground (arith, get_elem?-insert_at ps idx packet i)

length-insert_at :
    (ps : List Packet) (idx : ℕ) (packet : Packet)
    → length (insert_at ps idx packet) ≡ length ps + 1
length-insert_at ps idx packet = omega (
  arith,
  length-append {0} (take idx ps) (packet ∷ drop idx ps),
  length-append {0} (take idx ps) (drop idx ps),
  ap (λ (l : List Packet). length l) (take-append-drop idx ps),
)

-- `insert` leaves the loop out where it would move nothing.
made-shift :
    (w : Window) (idx : ℕ)
    → idx ≤ w.size
    → (if idx == w.size then w.buffer else shift w.buffer w.start idx (w.size - idx))
      ≡ shift w.buffer w.start idx (w.size - idx)
made-shift w idx le = elim (ℕ_discrete idx w.size) [
  | yes e ↦
      let none_left : w.size - idx ≡ 0 = omega arith in
      rw (none_left) (unfold shift in ground arith)
  | no ne ↦ ground arith
]

length-store :
    (w : Window) (idx : ℕ) (packet : Packet) → length (store w idx packet).buffer ≡ length w.buffer
unfolding store
length-store w idx packet = ground (
  arith,
  length-set w.buffer ((idx + w.start) % length w.buffer) (some packet),
  length-set (shift w.buffer w.start idx (w.size - idx))
      ((idx + w.start) % length (shift w.buffer w.start idx (w.size - idx))) (some packet),
  length-shift w.buffer w.start idx (w.size - idx),
)

-- The packet is written at its place behind the move of the packets above it.
store-holds :
    (w : Window) (ps : List Packet) (idx : ℕ) (packet : Packet)
    → Represents w ps
    → w.size < length w.buffer
    → idx ≤ w.size
    → (i : ℕ) → i < w.size + 1
    → read_slot (store w idx packet).buffer w.start i ≡ get_elem? (insert_at ps idx packet) i
unfolding store
store-holds w ps idx packet r room le i hi =
    let made = shift w.buffer w.start idx (w.size - idx) in
    let len = length-shift w.buffer w.start idx (w.size - idx) in
    let inside : w.start < length made = rw len r.start_in in
    rw (made-shift w idx le) (
      ground (
        arith,
        len,
        read-write_slot made w.start inside idx i (some packet),
        read_slot-shift (w.size - idx) w.buffer w.start idx i,
        get_elem?-insert_at ps idx packet i,
        r.holds i,
        r.holds (i - 1),
      ))

store-Represents :
    (w : Window) (ps : List Packet) (idx : ℕ) (packet : Packet)
    → Represents w ps
    → w.size < length w.buffer
    → idx ≤ w.size
    → Represents (store w idx packet) (insert_at ps idx packet)
unfolding store
store-Represents w ps idx packet r room le = record {
  start_in = omega (arith, length-store w idx packet);
  count = omega (arith, length-insert_at ps idx packet);
  fits = omega (arith, length-store w idx packet);
  holds = store-holds w ps idx packet r room le;
}

expand-Represents : (w : Window) (ps : List Packet) → Represents w ps → Represents (expand w) ps
unfolding expand
expand-Represents w ps r = record {
  start_in = omega (arith, length-expand w);
  count = r.count;
  fits = omega (arith, length-expand w);
  holds = λ i h. read_slot-expand w i r.start_in r.fits h ∙ r.holds i h;
}

-- The outcome of `insert` is a window that holds `ps` and has the marks of `w`.
abbrev pub Becomes : Window → Outcome Window → List Packet → Type 0
Becomes w out ps =
    (w' : Window) × (out ≡ ok w')
    × Represents w' ps
    × (w'.expect_begin ≡ w.expect_begin)
    × (w'.last_ack ≡ w.last_ack)

place-Becomes :
    (w : Window) (ps : List Packet) (packet : Packet) (s : Search)
    → Represents w ps
    → Within (length ps) s
    → Becomes w (place s w packet) (place_list s ps packet)
unfolding place
place-Becomes w ps packet crashed r h = absurd h
place-Becomes w ps packet duplicate r h = (w, refl, r, refl, refl)
place-Becomes w ps packet (at_slot idx) r h = elim (ℕ_discrete w.size (length w.buffer)) [
  | yes e ↦ (
    store (expand w) idx packet,
    ground arith,
    store-Represents (expand w) ps idx packet (expand-Represents w ps r)
        (unfold expand in omega (arith, length-expand w)) (unfold expand in omega (arith, r.count)),
    unfold store expand in refl,
    unfold store expand in refl,
  )
  | no ne ↦ (
    store w idx packet,
    ground arith,
    store-Represents w ps idx packet r (omega (arith, r.fits)) (omega (arith, r.count)),
    unfold store in refl,
    unfold store in refl,
  )
]

-- On a window that holds the packets `ps` in order, `insert` does not panic, and leaves a window
-- that holds `insert_list` of them: the packet at its place, or nothing new. `expectBegin` and
-- `lastAck` stay.
pub insert_refines :
    (w : Window) (ps : List Packet) (packet : Packet)
    → Represents w ps
    → Becomes w (insert w packet) (insert_list w.expect_begin ps packet)
unfolding insert insert_list
insert_refines w ps packet r = elim (Bool-cases (is_old w.expect_begin packet)) [
  | inl old ↦ rw old (w, refl, r, refl, refl)
  | inr new ↦
      let n = length ps in
      let same = search_slot-search_list w ps packet r w.size (omega arith) in
      let found_at = same ∙ ap (search_list ps packet) r.count in
      rw (new, found_at)
        (place-Becomes w ps packet (search_list ps packet n) r
          (search_list-Within ps packet n (omega arith)))
]
