-- ===== src/Tcp/Stream/Reads.antt =====
-- What reading a stream returns, in terms of the bytes that are left in it.
use tcp_port.Base.{List, [], false, length, refl, true, ℕ, ◌++◌, ◌<◌, ◌∷◌, ◌≡◌, ◌≤◌}
use tcp_port.Base.Slice.{Bytes}
use tcp_port.Tcp.Packet.{Packet}
use tcp_port.Tcp.Stream.{
  NetStream, ReadResult, at_end, got, prepend, read, read_received, receive, waits,
}
use tcp_port.Tcp.Window.Reassembly.{payloads}
use native.Mathlib.Decide.{dec_lt}
use tcp_port.Base.{
  Bool-cases, ap, append_assoc, arith, drop, inl, inr, length-take, le→ltb_false, ltb, lt→ltb, some,
  suc, sym, take, take-append-drop, tests, zero, ◌+◌, ◌∙◌,
}
use tcp_port.Tcp.Stream.{discard_all}
use tcp_port.Base.{length-append}
use tcp_port.Base.{min}

-- All bytes that a reader of the stream has still to get.
abbrev pub unread : NetStream → Bytes
unread s = s.remain ++ payloads s.pending

receive-unread :
    (r : Bytes) (ps : List Packet)
    → (receive r ps).0 ++ payloads (receive r ps).1 ≡ r ++ payloads ps
unfolding receive
receive-unread [] [] = refl
receive-unread [] (p ∷ ps) = receive-unread p.payload ps
receive-unread (b ∷ bs) ps = refl

receive-nil :
    (r : Bytes) (ps : List Packet)
    → (receive r ps).0 ≡ []
    → (r ++ payloads ps ≡ []) × ((receive r ps).1 ≡ [])
unfolding receive
receive-nil [] [] h = (refl, refl)
receive-nil [] (p ∷ ps) h = receive-nil p.payload ps h
receive-nil (b ∷ bs) ps h = cc

-- What `Read` promises for a buffer of `n` bytes.
abbrev pub ReadOf : NetStream → ℕ → ReadResult → Type 0
ReadOf s n (got out s') =
    (out ++ unread s' ≡ unread s)
    × (length out ≤ n)
    × (min n 1 ≤ length out)
    × (s'.window ≡ s.window)
    × (s'.is_open ≡ s.is_open)
ReadOf s n (at_end s') = (unread s ≡ []) × (unread s' ≡ []) × (s.is_open ≡ false)
ReadOf s n (waits s') = (unread s ≡ []) × (unread s' ≡ []) × (s.is_open ≡ true)

read_received-ReadOf :
    (s : NetStream) (n : ℕ) (r : Bytes) (ps : List Packet)
    → r ++ payloads ps ≡ unread s
    → (r ≡ [] → (unread s ≡ []) × (ps ≡ []))
    → ReadOf s n (read_received s n (r, ps))
unfolding read_received
read_received-ReadOf s n [] ps e h =
    let nothing = (h refl).0 in
    elim (Bool-cases s.is_open) [
      | inl o ↦ simp o (nothing, e ∙ nothing, refl)
      | inr c ↦ simp c (nothing, e ∙ nothing, refl)
    ]
read_received-ReadOf s n (b ∷ bs) ps e h = elim (dec_lt n (length (b ∷ bs))) [
  | yes lt ↦ rw (lt→ltb n (length (b ∷ bs)) lt) (
    sym (append_assoc (take n (b ∷ bs)) (drop n (b ∷ bs)) (payloads ps))
        ∙ ap (λ l. l ++ payloads ps) (take-append-drop n (b ∷ bs))
        ∙ e,
    omega (arith, length-take {0} n (b ∷ bs)),
    omega (arith, length-take {0} n (b ∷ bs)),
    refl,
    refl,
  )
  | no ge ↦
      rw (le→ltb_false n (length (b ∷ bs)) (omega arith)) (e, omega arith, omega arith, refl, refl)
]

-- A read of up to `n` bytes returns the next bytes of the stream, at least one if `n` is not 0,
-- and leaves the rest of them; it ends or waits only if nothing is left, according to whether the
-- channel is closed or open.
pub read-ReadOf : (s : NetStream) (n : ℕ) → ReadOf s n (read s n)
unfolding read
read-ReadOf s n =
    let (r, ps) = receive s.remain s.pending in
    read_received-ReadOf s n r ps (receive-unread s.remain s.pending)
      (λ h. receive-nil s.remain s.pending h)

-- Putting back what a read returned gives the stream as it was: no byte is lost by looking at it.
pub unread-prepend-read :
    (s s' : NetStream) (n : ℕ) (out : Bytes)
    → read s n ≡ got out s'
    → unread (prepend s' out) ≡ unread s
unfolding prepend
unread-prepend-read s s' n [] e = (rw e at (read-ReadOf s n)).0
unread-prepend-read s s' n (b ∷ bs) e =
    let put : ltb 0 (length (b ∷ bs)) ≡ true = omega tests in
    rw put (append_assoc (b ∷ bs) s'.remain (payloads s'.pending) ∙ (rw e at (read-ReadOf s n)).0)

discard_step :
    (f : ℕ) (s : NetStream) (n : ℕ) (r : ReadResult)
    → read s 32768 ≡ r
    → ReadOf s 32768 r
    → s.is_open ≡ false
    → length (unread s) < suc f
    → ((s' : NetStream) (m : ℕ)
        → s'.is_open ≡ false
        → length (unread s') < f
        → discard_all f s' m ≡ some (m + length (unread s')))
    → discard_all (suc f) s n ≡ some (n + length (unread s))
unfolding discard_all
discard_step f s n (got out s') e p c h ih =
    let size = ap (λ (l : Bytes). length l) p.0 ∙ refl in
    let parts = length-append {0} out (unread s') in
    let some_out = p.2 in
    rw (e, discard_all) (ih s' (n + length out) (p.4 ∙ c) (omega arith) ∙ ap some (omega arith))
discard_step f s n (at_end s') e p c h ih =
    let none_left = ap (λ (l : Bytes). length l) p.0 in rw (e, discard_all) (ap some (omega arith))
discard_step f s n (waits s') e p c h ih = cc p.2

-- On a closed stream `DiscardAll` ends, after at most one round more than there are bytes, and
-- returns the number of all bytes that were left.
pub discard_all-length :
    (f : ℕ) (s : NetStream) (n : ℕ)
    → s.is_open ≡ false
    → length (unread s) < f
    → discard_all f s n ≡ some (n + length (unread s))
discard_all-length zero s n c h = absurd (omega arith)
discard_all-length (suc f) s n c h =
    discard_step f s n (read s 32768) refl (read-ReadOf s 32768) c h (discard_all-length f)
