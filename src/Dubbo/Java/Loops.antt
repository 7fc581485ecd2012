-- ===== src/Dubbo/Java/Loops.antt =====
-- The loop of `deserializeJavaArgs` (dubboport/java_deserializer.go) ends unless the reading of a
-- single value has no end.
use tcp_port.Dubbo.Java.State.{◌>>=◌}
use tcp_port.Base.{
  Bool-cases, List, Option, [], arith, if◌then◌else◌, inl, inr, leb, length, none, refl, some, suc,
  zero, ℕ, ◌+◌, ◌∷◌, ◌≡◌, ◌≤◌,
}
use tcp_port.Base.Slice.{Bytes}
use tcp_port.Dubbo.Java.Args.{
  args_loop, args_round, attempt, attempt_result, deserialize_java_args, drop_handles, not_empty,
}
use tcp_port.Dubbo.Java.Bounds.{read_content-Ends}
use tcp_port.Dubbo.Java.Content.{read_content}
use tcp_port.Dubbo.Java.Runs.{
  Ends, Ends-from, Runs, Runs-advance, Runs-get_state, Runs-if, Runs-less, Runs-pure, Runs-seq,
  Runs-seq_bind, Runs-still, Runs-throw,
}
use tcp_port.Dubbo.Java.State.{
  Deser, Fields, Parse, Step, Value, and_then, crashed, exhausted, get_state, parsed, refused,
}
use tcp_port.Base.{le→leb, ltb}
use tcp_port.Base.Text.{codes}
use tcp_port.Dubbo.Java.Args.{is_stream_at}
use tcp_port.Dubbo.Java.Runs.{Runs-then}
use tcp_port.Base.{subst}
use tcp_port.Dubbo.Java.Args.{new_deser}

-- A call that has no end.
abbrev Endless : {A : Type 0} → Step A → Type 0
Endless m = (s : Deser) × (m s ≡ exhausted)

Ends-Endless :
    {A : Type 0} (bytes : Bytes) (start low : ℕ) (m : Step A) (s : Deser) (r : Parse A)
    → m s ≡ r
    → Ends (Unit {0}) bytes start low r
    → Ends (Endless m) bytes start low r
unfolding Ends
Ends-Endless bytes start low m s (parsed a s') e h = h
Ends-Endless bytes start low m s (refused x s') e h = h
Ends-Endless bytes start low m s crashed e h = h
Ends-Endless bytes start low m s exhausted e h = (s, e)

Runs-Endless :
    {bytes : Bytes} {k : ℕ} (n : ℕ)
    → Runs (Endless (read_content bytes n)) bytes 0 1 k (read_content bytes n)
Runs-Endless {bytes = bytes} n = record {
  run = λ s p q.
      Ends-Endless bytes s.pos (s.pos + 1) (read_content bytes n) s (read_content bytes n s) refl
        (read_content-Ends bytes n s (omega (arith, p)));
}

module _ (X : Type 0) (bytes : Bytes) where
  Ends-attempt :
      {A B : Type 0} (start : ℕ) (r : Parse A) (f : Option A → Step B)
      → Ends X bytes start (start + 1) r
      → ((s : Deser) → start ≤ s.pos → s.pos ≤ length bytes → Ends X bytes start start (f none s))
      → ((a : A) (s : Deser)
          → start + 1 ≤ s.pos
          → s.pos ≤ length bytes
          → Ends X bytes start start (f (some a) s))
      → Ends X bytes start start (and_then (attempt_result r) f)
  unfolding Ends
  Ends-attempt start (parsed a s) f h hn hs = hs a s h.0 h.1
  Ends-attempt start (refused e s) f h hn hs = hn s h.0 h.1
  Ends-attempt start crashed f h hn hs = h
  Ends-attempt start exhausted f h hn hs = h

module _ {X : Type 0} {bytes : Bytes} where
  -- A call whose error is dropped, and what follows in either case.
  Runs-attempt :
      {A B : Type 0} {k k' : ℕ} {m : Step A} (f : Option A → Step B)
      → Runs X bytes 0 1 k m
      → Runs X bytes 0 0 k (f none)
      → ((a : A) → Runs X bytes 0 0 k' (f (some a)))
      → k ≤ suc k'
      → Runs X bytes 0 0 k (attempt m >>= f)
  Runs-attempt {m = m} f hm hn hs le = record {
    run = λ s p q.
        let ends : Ends X bytes s.pos s.pos (and_then (attempt_result (m s)) f) =
          Ends-attempt X bytes s.pos (m s) f (hm.run s p q)
            (λ s' low high.
              Ends-from X bytes s.pos s'.pos s.pos (s'.pos + 0) (f none s') (omega arith)
                (omega arith) (hn.run s' (omega arith) (omega arith)))
            (λ a s' low high.
              Ends-from X bytes s.pos s'.pos s.pos (s'.pos + 0) (f (some a) s') (omega arith)
                (omega arith) ((hs a).run s' (omega arith) (omega arith))) in
        Ends-from X bytes s.pos s.pos (s.pos + 0) s.pos (and_then (attempt_result (m s)) f)
          (omega arith) (omega arith) ends;
  }

  -- What is done at the end of the bytes, and before it.
  Runs-check :
      {A : Type 0} {eat k : ℕ} {m m' : Deser → Step A}
      → ((d : Deser) → Runs X bytes 0 eat k (m d))
      → ((d : Deser) → Runs X bytes 1 eat k (m' d))
      → Runs X bytes 0 eat k (get_state >>= λ d. if leb (length bytes) d.pos then m d else m' d)
  Runs-check {m = m} {m' = m'} h h' = record {
    run = λ s p q. elim (Bool-cases (leb (length bytes) s.pos)) [
      | inl e ↦ rw e ((h s).run s p q)
      | inr e ↦ rw e ((h' s).run s (ground arith) q)
    ];
  }

  Runs-check_end :
      {A : Type 0} {eat : ℕ} (m m' : Deser → Step A)
      → ((d : Deser) → Runs X bytes 0 eat 0 (m d))
      → Runs X bytes 0 eat 0 (get_state >>= λ d. if leb (length bytes) d.pos then m d else m' d)
  Runs-check_end m m' h = record {
    run = λ s p q. rw (le→leb (length bytes) s.pos (omega (arith, q))) ((h s).run s p q);
  }

  Runs-drop_handles : {k : ℕ} → Runs X bytes 0 0 k drop_handles
  unfolding drop_handles
  Runs-drop_handles = Runs-still (λ _. tt) (λ s. record s { handles = [] }) (λ s. refl)

  Runs-args_round :
      {k k' : ℕ} {content : Step Value} {next : Fields → Step Fields} (result : Fields)
      → ((k : ℕ) → Runs X bytes 0 1 k content)
      → ((fs : Fields) → Runs X bytes 0 0 k' (next fs))
      → k ≤ suc k'
      → Runs X bytes 0 0 k (args_round bytes content next result)
  unfolding args_round
  Runs-args_round result hc hn le =
      Runs-check (λ d. Runs-pure)
        (λ d.
          Runs-if _
            (Runs-less (Runs-seq_bind Runs-advance (hn result) (omega (arith, le))) (omega arith)
              (omega arith))
            (Runs-if _
              (Runs-less
                (Runs-seq_bind Runs-advance (Runs-seq Runs-drop_handles (hn result))
                  (omega (arith, le)))
                (omega arith) (omega arith))
              (Runs-less
                (Runs-attempt _ (hc _) Runs-pure (λ v. Runs-get_state (λ d'. hn _))
                  (omega (arith, le)))
                (omega arith) (omega arith))))

  Runs-args_loop :
      (n : ℕ) (content : Step Value) (result : Fields)
      → ((k : ℕ) → Runs X bytes 0 1 k content)
      → Runs X bytes 0 0 n (args_loop bytes content (suc n) result)
  unfolding args_loop args_round
  Runs-args_loop zero content result h = Runs-check_end _ _ (λ d. Runs-pure)
  Runs-args_loop (suc n) content result h =
      Runs-args_round result h (λ fs. Runs-args_loop n content fs h) (omega arith)

  Runs-not_empty :
      {A : Type 0} {k : ℕ} (t : Bytes) (xs : List A) → Runs X bytes 0 0 k (not_empty t xs)
  unfolding not_empty
  Runs-not_empty t [] = Runs-throw t
  Runs-not_empty t (x ∷ xs) = Runs-pure

stream_start-le :
    (bytes : Bytes) → 1 ≤ length bytes → (if is_stream_at bytes 0 then 4 else 0) ≤ length bytes
unfolding is_stream_at
stream_start-le bytes h = ground arith

Ends-deserialize_java_args :
    (n : ℕ) (bytes : Bytes)
    → Ends (Endless (read_content bytes n)) bytes 0 0 (deserialize_java_args n bytes)
unfolding deserialize_java_args Ends
Ends-deserialize_java_args n bytes =
    let loop = args_loop bytes (read_content bytes n) (suc (length bytes)) [] in
    let start : ℕ = if is_stream_at bytes 0 then 4 else 0 in
    let text = codes "no parseable objects found" in
    let runs : Runs (Endless (read_content bytes n)) bytes 0 0 (length bytes)
        (loop >>= not_empty text) =
      Runs-then (Runs-args_loop (length bytes) (read_content bytes n) [] (λ k. Runs-Endless n))
        (λ fs. Runs-not_empty text fs) in
    elim (Bool-cases (ltb (length bytes) 1)) [
      | inl e ↦ rw e (omega arith)
      | inr e ↦ rw e (
          Ends-from (Endless (read_content bytes n)) bytes 0 start 0 (start + 0)
            ((loop >>= not_empty text) (new_deser start)) (omega arith) (omega arith)
            (runs.run (new_deser start) (omega (arith, stream_start-le bytes (ground arith)))
              (omega arith)))
    ]

-- `deserializeJavaArgs` comes to an end unless the reading of a single value has none: when its
-- model runs out of rounds, so does the reading of a value from some state.
pub deserialize_java_args-exhausted :
    (n : ℕ) (bytes : Bytes)
    → deserialize_java_args n bytes ≡ exhausted
    → (s : Deser) × (read_content bytes n s ≡ exhausted)
unfolding Ends
deserialize_java_args-exhausted n bytes h =
    subst (Ends (Endless (read_content bytes n)) bytes 0 0) h (Ends-deserialize_java_args n bytes)
