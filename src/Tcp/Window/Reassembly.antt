-- ===== src/Tcp/Window/Reassembly.antt =====
-- What `confirm` sends are the bytes of the stream, each once and in order.
use tcp_port.Base.{List, [], ap, arith, drop, length, ℕ, ◌++◌, ◌+◌, ◌-◌, ◌∷◌, ◌≡◌, ◌≤◌}
use tcp_port.Base.Slice.{Bytes, cut}
use tcp_port.Tcp.Packet.{Packet}
use Prim.Native.Nat.{max}
use tcp_port.Base.{length-drop, length-take, ◌<◌, ◌^◌, ◌∙◌, ◌⊎◌}
use tcp_port.Base.Cuts.{drop-drop, drop-take, take-append-take}
use tcp_port.Tcp.Window.{deliver, to_list}
use native.Mathlib.Decide.{dec_le, ℕ_discrete}
use tcp_port.Base.{All, Option, append-nil, if◌then◌else◌, leb, none, refl, some, sym, ◌==◌}
use tcp_port.Tcp.Seq.Order.{compare_tcp_seq-eq-sub}
use tcp_port.Tcp.Window.Model.{confirm_list}
use tcp_port.Base.{append_assoc, ap₂, false, inl, inr, true}
use tcp_port.Base.Int.{leb_ℤ, pos}
use tcp_port.Tcp.Seq.{compare_tcp_seq}

-- The bytes that reach the reader of the channel.
abbrev pub payloads : List Packet → Bytes
payloads [] = []
payloads (p ∷ ps) = p.payload ++ payloads ps

pub payloads-append : (ps qs : List Packet) → payloads (ps ++ qs) ≡ payloads ps ++ payloads qs
payloads-append [] qs = refl
payloads-append (p ∷ ps) qs =
    ap (◌++◌ p.payload) (payloads-append ps qs)
    ∙ sym (append_assoc p.payload (payloads ps) (payloads qs))

-- The sender's bytes `stream`, the first of them at sequence number `base`.
module _ (stream : Bytes) (base : ℕ) where
  -- The bytes from sequence number `a` up to `b`.
  abbrev pub segment : ℕ → ℕ → Bytes
  segment a b = cut stream (a - base) (b - base)

  pub record IsSegment (p : Packet) : Type 0 where
    pub from : base ≤ p.seq
    pub to : p.seq + length p.payload ≤ base + length stream
    pub bytes : p.payload ≡ segment p.seq (p.seq + length p.payload)

  segment-append : (a b c : ℕ) → base ≤ a → a ≤ b → b ≤ c → segment a b ++ segment b c ≡ segment a c
  segment-append a b c h k l =
      let e : b - base ≡ a - base + (b - a) = omega arith in
      let e1 : b - base - (a - base) ≡ b - a = omega arith in
      let e2 : c - base - (b - base) ≡ c - b = omega arith in
      let e3 : c - base - (a - base) ≡ b - a + (c - b) = omega arith in
      rw (e1, e2, e3, e, ← drop-drop (a - base) (b - a) stream)
        (take-append-take (b - a) (c - b) (drop (a - base) stream))

  -- The part of a segment behind its first `d` bytes.
  drop-segment : (a b d : ℕ) → base ≤ a → a + d ≤ b → drop d (segment a b) ≡ segment (a + d) b
  drop-segment a b d h k =
      let e : a + d - base ≡ a - base + d = omega arith in
      let e1 : b - base - (a - base + d) ≡ b - base - (a - base) - d = omega arith in
      drop-take d (b - base - (a - base)) (drop (a - base) stream)
      ∙ rw (e, e1, drop-drop (a - base) d stream)

  length-segment :
      (a b : ℕ) → base ≤ a → a ≤ b → b ≤ base + length stream → length (segment a b) ≡ b - a
  length-segment a b h k l = omega (
    arith,
    length-take {0} (b - base - (a - base)) (drop (a - base) stream),
    length-drop {0} (a - base) stream,
  )

  -- The packets cover the bytes from `e` up to `ack`: each one below `ack` starts at the latest
  -- where the ones before it end.
  abbrev pub Covers : ℕ → ℕ → List Packet → Type 0
  Covers ack e [] = ack ≤ e
  Covers ack e (p ∷ ps) =
      ((ack ≤ p.seq) × (ack ≤ e)) ⊎ ((p.seq ≤ e) × Covers ack (max e (p.seq + length p.payload)) ps)

  -- The stream lies within 2^31 sequence numbers and does not cross the wrap.
  abbrev pub IsUnwrapped : Type 0
  IsUnwrapped = (length stream < 2 ^ 31) × (base + length stream < 2 ^ 32)

  abbrev pub InStream : ℕ → Type 0
  InStream e = (0 < e) × (base ≤ e) × (e ≤ base + length stream)

  abbrev end_of : Packet → ℕ
  end_of p = p.seq + length p.payload

  -- `deliver` on a segment that leaves no hole, with numbers for sequence numbers.
  deliver-eq :
      (e : ℕ) (p : Packet)
      → IsUnwrapped
      → InStream e
      → IsSegment p
      → p.seq ≤ e
      → deliver e p ≡ (
          if e == p.seq
          then (some p, end_of p)
          else if leb (end_of p) e
          then (none, e)
          else (some (record p { payload = drop (e - p.seq) p.payload }), end_of p))
  unfolding deliver
  deliver-eq e p u i s le = ground (arith, compare_tcp_seq-eq-sub e p.seq)

  abbrev Sends : ℕ → Packet → Option Packet × ℕ → Type 0
  Sends e p (out, e') =
      (e' ≡ max e (end_of p)) × (payloads (to_list out) ≡ segment e (max e (end_of p)))

  -- Whatever `deliver` sends for a segment that leaves no hole, it is the bytes from `expectBegin`
  -- up to the new `expectBegin`.
  deliver-Sends :
      (e : ℕ) (p : Packet)
      → IsUnwrapped
      → InStream e
      → IsSegment p
      → p.seq ≤ e
      → Sends e p (deliver e p)
  deliver-Sends e p u i s le = elim (ℕ_discrete e p.seq) [
    | yes same ↦
        let m : max e (end_of p) ≡ end_of p = omega arith in
        let d : deliver e p ≡ (some p, end_of p) = ground (arith, deliver-eq e p u i s le) in
        rw (d, m) (refl, append-nil p.payload ∙ s.bytes ∙ ap (λ a. segment a (end_of p)) (sym same))
    | no ne ↦ elim (dec_le (end_of p) e) [
      | yes old ↦
          let m : max e (end_of p) ≡ e = omega arith in
          let d : deliver e p ≡ (none, e) = ground (arith, deliver-eq e p u i s le) in
          let z : e - base - (e - base) ≡ 0 = omega arith in rw (d, m) (refl, rw z)
      | no new ↦
          let m : max e (end_of p) ≡ end_of p = omega arith in
          let cut_off : Packet = record p { payload = drop (e - p.seq) p.payload } in
          let d : deliver e p ≡ (some cut_off, end_of p) =
            ground (arith, deliver-eq e p u i s le) in
          let back : p.seq + (e - p.seq) ≡ e = omega arith in
          rw (d, m)
            (
              refl,
              append-nil (drop (e - p.seq) p.payload)
                  ∙ ap (drop (e - p.seq)) s.bytes
                  ∙ drop-segment p.seq (end_of p) (e - p.seq) s.from (omega arith)
                  ∙ ap (λ a. segment a (end_of p)) back,
            )
    ]
  ]

  still-Covers :
      (ack e : ℕ) (p : Packet) (ps : List Packet)
      → Covers ack e (p ∷ ps)
      → p.seq < ack
      → (p.seq ≤ e) × Covers ack (max e (end_of p)) ps
  still-Covers ack e p ps (inl h) k = absurd (omega arith)
  still-Covers ack e p ps (inr h) k = h

  -- The test by which the loop of `confirm` stops, with numbers for sequence numbers.
  acked-eq :
      (ack : ℕ) (p : Packet)
      → IsUnwrapped
      → IsSegment p
      → base ≤ ack
      → ack ≤ base + length stream
      → leb_ℤ (pos 0) (compare_tcp_seq p.seq ack) ≡ leb ack p.seq
  acked-eq ack p u s h k = ground (arith, compare_tcp_seq-eq-sub p.seq ack)

  -- Let the window hold segments of a stream that spans less than 2^31 sequence numbers and does
  -- not cross the wrap, and let them cover the bytes from `expectBegin` up to the acknowledged
  -- number. Then the bytes that `confirm` sends are exactly the bytes of the stream from the old
  -- `expectBegin` up to the new one, which has reached the acknowledged number and lies within
  -- the stream.
  pub confirm_list-segment :
      (ack e : ℕ) (ps : List Packet)
      → IsUnwrapped
      → InStream e
      → All IsSegment ps
      → Covers ack e ps
      → base ≤ ack
      → ack ≤ base + length stream
      → let c = confirm_list ack e ps in
        (payloads c.sent ≡ segment e c.expect)
        × (e ≤ c.expect)
        × (ack ≤ c.expect)
        × (c.expect ≤ base + length stream)
  unfolding confirm_list
  confirm_list-segment ack e [] u i s g hb hc =
      let z : e - base - (e - base) ≡ 0 = omega arith in (rw z, omega arith, g, i.2)
  confirm_list-segment ack e (p ∷ ps) u i (s, ss) g hb hc =
      let test = acked-eq ack p u s hb hc in
      elim (dec_le ack p.seq) [
        | yes h ↦
            let acked : leb_ℤ (pos 0) (compare_tcp_seq p.seq ack) ≡ true = ground (arith, test) in
            let z : e - base - (e - base) ≡ 0 = omega arith in
            rw acked (rw z, omega arith, omega (arith, g), i.2)
        | no h ↦
            let later : leb_ℤ (pos 0) (compare_tcp_seq p.seq ack) ≡ false = ground (arith, test) in
            let (le, cov) = still-Covers ack e p ps g (omega arith) in
            let first = deliver-Sends e p u i s le in
            let e1 = max e (end_of p) in
            let in1 : InStream e1 = omega (arith, s.to) in
            let ih = confirm_list-segment ack e1 ps u in1 ss cov hb hc in
            rw (later, first.0)
              (
                payloads-append (to_list (deliver e p).0) (confirm_list ack e1 ps).sent
                    ∙ ap₂ ◌++◌ first.1 ih.0
                    ∙ segment-append e e1 (confirm_list ack e1 ps).expect i.1 (omega arith) ih.1,
                omega (arith, ih.1),
                ih.2,
                ih.3,
              )
      ]
