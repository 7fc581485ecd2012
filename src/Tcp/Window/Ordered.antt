-- ===== src/Tcp/Window/Ordered.antt =====
-- The packets of a receive window stay in strictly increasing order of their sequence numbers, as
-- long as all of them lie in one span of 2^31 numbers that does not cross the wrap.
use tcp_port.Base.{
  All, List, [], arith, drop, false, get_elem?, inl, inr, length, refl, some, suc, take, zero, ℕ,
  ◌+◌, ◌<◌, ◌^◌, ◌∷◌, ◌≡◌, ◌≤◌, ◌⊎◌,
}
use tcp_port.Tcp.Packet.{Packet}
use tcp_port.Tcp.Window.{Search, at_slot, crashed, duplicate, is_old, search_step}
use tcp_port.Tcp.Window.Model.{insert_at, insert_list, search_list}
use tcp_port.Base.{Bool-cases, Option, if◌then◌else◌, ltb, none, ◌==◌}
use tcp_port.Tcp.Seq.Order.{compare_tcp_seq-eq-sub}
use tcp_port.Tcp.Window.Insert.{Within, search_list-Within}
use tcp_port.Tcp.Window.Model.{place_list}
use tcp_port.Dubbo.Java.State.{expect}

abbrev pub InSpan : ℕ → Packet → Type 0
InSpan lo p = (lo ≤ p.seq) × (p.seq < lo + 2 ^ 31) × (p.seq < 2 ^ 32)

abbrev pub IsOrdered : List Packet → Type 0
IsOrdered [] = Unit
IsOrdered (p ∷ ps) = All (λ q. p.seq < q.seq) ps × IsOrdered ps

-- How the place found among `xs` shows once `x` stands in front of them.
abbrev front : Packet → Packet → Search → Search
front x packet (at_slot zero) = search_step (some x) packet 0 (at_slot 0)
front x packet (at_slot (suc i)) = at_slot (suc (suc i))
front x packet duplicate = duplicate
front x packet crashed = crashed

front-search_step :
    (x packet : Packet) (o : Option Packet) (n : ℕ) (s : Search)
    → search_step o packet (suc n) (front x packet s) ≡ front x packet (search_step o packet n s)
unfolding search_step
front-search_step x packet none n s = refl
front-search_step x packet (some q) n s = ground arith

search_list-cons :
    (x : Packet) (xs : List Packet) (packet : Packet) (n : ℕ)
    → search_list (x ∷ xs) packet (suc n) ≡ front x packet (search_list xs packet n)
unfolding search_list
search_list-cons x xs packet zero = refl
search_list-cons x xs packet (suc n) =
    rw (search_list-cons x xs packet n)
      (front-search_step x packet (get_elem? xs n) n (search_list xs packet n))

-- The packets below the place have smaller numbers, those from it on have larger ones; or one
-- has the same number.
abbrev pub HasSeq : ℕ → List Packet → Type 0
HasSeq n [] = ⊥
HasSeq n (p ∷ ps) = (p.seq ≡ n) ⊎ HasSeq n ps

abbrev Splits : List Packet → Packet → Search → Type 0
Splits ps packet (at_slot i) =
    All (λ q. q.seq < packet.seq) (take i ps) × All (λ q. packet.seq < q.seq) (drop i ps)
Splits ps packet duplicate = HasSeq packet.seq ps
Splits ps packet crashed = ⊥

All-trans : (a b : ℕ) (ps : List Packet) → a < b → All (λ q. b < q.seq) ps → All (λ q. a < q.seq) ps
All-trans a b [] h all = tt
All-trans a b (p ∷ ps) h all = (omega arith, All-trans a b ps h all.1)

-- Inside a span the search compares numbers.
search_step_span :
    (lo : ℕ) (x packet : Packet) (i : ℕ) (below : Search)
    → InSpan lo x
    → InSpan lo packet
    → search_step (some x) packet i below ≡ (
        if x.seq == packet.seq
        then duplicate
        else if ltb x.seq packet.seq
        then at_slot (suc i)
        else below)
unfolding search_step
search_step_span lo x packet i below hx hp = ground (arith, compare_tcp_seq-eq-sub x.seq packet.seq)

order_cases : (a b : ℕ) → (a < b) ⊎ (a ≡ b) ⊎ (b < a)
order_cases a b = omega arith

front-Splits :
    (lo : ℕ) (x : Packet) (xs : List Packet) (packet : Packet) (s : Search)
    → InSpan lo x
    → InSpan lo packet
    → All (λ q. x.seq < q.seq) xs
    → Splits xs packet s
    → Within (length xs) s
    → Splits (x ∷ xs) packet (front x packet s)
front-Splits lo x xs packet (at_slot zero) hx hp above s w =
    let step = search_step_span lo x packet 0 (at_slot 0) hx hp in
    elim (order_cases x.seq packet.seq) [
      | inl lt ↦
          let e : search_step (some x) packet 0 (at_slot 0) ≡ at_slot 1 = ground (arith, step) in
          rw e ((lt, tt), s.1)
      | inr (inl eq) ↦
          let e : search_step (some x) packet 0 (at_slot 0) ≡ duplicate = ground (arith, step) in
          rw e (inl eq)
      | inr (inr gt) ↦
          let e : search_step (some x) packet 0 (at_slot 0) ≡ at_slot 0 = ground (arith, step) in
          rw e (tt, (gt, s.1))
    ]
front-Splits lo x [] packet (at_slot (suc i)) hx hp above s w = absurd (omega arith)
front-Splits lo x (y ∷ xs) packet (at_slot (suc i)) hx hp above s w = ((omega arith, s.0), s.1)
front-Splits lo x xs packet duplicate hx hp above s w = inr s
front-Splits lo x xs packet crashed hx hp above s w = s

search_list-Splits :
    (lo : ℕ) (ps : List Packet) (packet : Packet)
    → All (InSpan lo) ps
    → InSpan lo packet
    → IsOrdered ps
    → Splits ps packet (search_list ps packet (length ps))
search_list-Splits lo [] packet span hp o = unfold search_list in (tt, tt)
search_list-Splits lo (x ∷ xs) packet span hp o = rw (search_list-cons x xs packet (length xs)) (
    front-Splits lo x xs packet (search_list xs packet (length xs)) span.0 hp o.0
      (search_list-Splits lo xs packet span.1 hp o.1)
      (search_list-Within xs packet (length xs) (omega arith)))

All-insert_at {ℓ} :
    (P : Packet → Type ℓ) (ps : List Packet) (idx : ℕ) (packet : Packet)
    → All P ps
    → P packet
    → All P (insert_at ps idx packet)
All-insert_at P ps zero packet all p = (p, all)
All-insert_at P [] (suc idx) packet all p = (p, tt)
All-insert_at P (x ∷ ps) (suc idx) packet all p = (all.0, All-insert_at P ps idx packet all.1 p)

insert_at-IsOrdered :
    (ps : List Packet) (idx : ℕ) (packet : Packet)
    → IsOrdered ps
    → All (λ q. q.seq < packet.seq) (take idx ps)
    → All (λ q. packet.seq < q.seq) (drop idx ps)
    → IsOrdered (insert_at ps idx packet)
insert_at-IsOrdered ps zero packet o below above = (above, o)
insert_at-IsOrdered [] (suc idx) packet o below above = (tt, tt)
insert_at-IsOrdered (x ∷ ps) (suc idx) packet o below above = (
  All-insert_at (λ q. x.seq < q.seq) ps idx packet o.0 below.0,
  insert_at-IsOrdered ps idx packet o.1 below.1 above,
)

place_list-IsOrdered :
    (lo : ℕ) (ps : List Packet) (packet : Packet) (s : Search)
    → All (InSpan lo) ps
    → InSpan lo packet
    → IsOrdered ps
    → Splits ps packet s
    → IsOrdered (place_list s ps packet) × All (InSpan lo) (place_list s ps packet)
place_list-IsOrdered lo ps packet (at_slot i) span hp o s =
    (insert_at-IsOrdered ps i packet o s.0 s.1, All-insert_at (InSpan lo) ps i packet span hp)
place_list-IsOrdered lo ps packet duplicate span hp o s = (o, span)
place_list-IsOrdered lo ps packet crashed span hp o s = absurd s

-- Inserting a packet into a window in order, all in one span of 2^31 sequence numbers that does
-- not cross the wrap, leaves the window in order and in the span.
pub insert_list-IsOrdered :
    (lo expect : ℕ) (ps : List Packet) (packet : Packet)
    → All (InSpan lo) ps
    → InSpan lo packet
    → IsOrdered ps
    → IsOrdered (insert_list expect ps packet) × All (InSpan lo) (insert_list expect ps packet)
unfolding insert_list
insert_list-IsOrdered lo expect ps packet span hp o = elim (Bool-cases (is_old expect packet)) [
  | inl old ↦ rw old (o, span)
  | inr new ↦
      let (ordered, in_span) =
        place_list-IsOrdered lo ps packet (search_list ps packet (length ps)) span hp o
          (search_list-Splits lo ps packet span hp o) in
      rw new (ordered, in_span)
]

abbrev pub HasPacket : Packet → List Packet → Type 0
HasPacket packet [] = ⊥
HasPacket packet (p ∷ ps) = (p ≡ packet) ⊎ HasPacket packet ps

HasPacket-insert_at :
    (ps : List Packet) (idx : ℕ) (packet : Packet) → HasPacket packet (insert_at ps idx packet)
HasPacket-insert_at ps zero packet = inl refl
HasPacket-insert_at [] (suc idx) packet = inl refl
HasPacket-insert_at (x ∷ ps) (suc idx) packet = inr (HasPacket-insert_at ps idx packet)

-- The packet is among them, or they are the same as before and have its sequence number.
abbrev pub TakesIn : Packet → List Packet → List Packet → Type 0
TakesIn packet before ps = HasPacket packet ps ⊎ ((ps ≡ before) × HasSeq packet.seq before)

place_list-TakesIn :
    (ps : List Packet) (packet : Packet) (s : Search)
    → Splits ps packet s
    → TakesIn packet ps (place_list s ps packet)
place_list-TakesIn ps packet (at_slot i) s = inl (HasPacket-insert_at ps i packet)
place_list-TakesIn ps packet duplicate s = inr (refl, s)
place_list-TakesIn ps packet crashed s = absurd s

-- A packet that is not old is taken in by such a window, unless a packet has its sequence number.
pub insert_list-TakesIn :
    (lo expect : ℕ) (ps : List Packet) (packet : Packet)
    → All (InSpan lo) ps
    → InSpan lo packet
    → IsOrdered ps
    → is_old expect packet ≡ false
    → TakesIn packet ps (insert_list expect ps packet)
unfolding insert_list
insert_list-TakesIn lo expect ps packet span hp o new = rw new (
    place_list-TakesIn ps packet (search_list ps packet (length ps))
      (search_list-Splits lo ps packet span hp o))
