-- ===== src/Dubbo/Java/Runs.antt =====
-- How far the methods of dubboport/java_deserializer.go move: rules for the steps that they are
-- made of.
use tcp_port.Dubbo.Java.State.{◌>>=◌}
use tcp_port.Base.{Bool, arith, false, if◌then◌else◌, length, true, ℕ, ◌+◌, ◌≡◌, ◌≤◌}
use tcp_port.Base.Slice.{Bytes}
use tcp_port.Dubbo.Java.State.{
  Deser, Parse, Step, advance, and_then, crashed, exhausted, expect, get_state, parsed, peek, pure,
  read_bytes, refused, wrap_error,
}
use tcp_port.Base.{Bool-cases, inl, inr, leb}
use tcp_port.Base.Slice.{at}
use tcp_port.Dubbo.Java.State.{wrap_result}
use tcp_port.Base.{refl}
use tcp_port.Base.Outcome.{Error}
use tcp_port.Dubbo.Java.State.{◌>>◌}
use tcp_port.Base.{le→leb}
use tcp_port.Dubbo.Java.State.{out_of_rounds}
use tcp_port.Base.Outcome.{errorf}
use tcp_port.Dubbo.Java.State.{throw}

-- The end of a run that began at `start`: in `bytes`, not before `low` if there is a value, not
-- before `start` if there is an error; `X` is what it means to run out of rounds.
unfoldable pub Ends : {A : Type 0} → Type 0 → Bytes → ℕ → ℕ → Parse A → Type 0
Ends X bytes start low (parsed a s) = (low ≤ s.pos) × (s.pos ≤ length bytes)
Ends X bytes start low (refused e s) = (start ≤ s.pos) × (s.pos ≤ length bytes)
Ends X bytes start low crashed = Unit {0}
Ends X bytes start low exhausted = X

-- From a position with `pre` bytes behind it, and `k` at most, the step moves over `eat` bytes or
-- more if it succeeds, and stays in the bytes.
pub record Runs (X : Type 0) (bytes : Bytes) {A : Type 0} (pre eat k : ℕ) (m : Step A)
    : Type 0 where
  pub run :
      (s : Deser)
      → s.pos + pre ≤ length bytes
      → length bytes ≤ s.pos + k
      → Ends X bytes s.pos (s.pos + eat) (m s)

module _ (X : Type 0) (bytes : Bytes) where
  Ends-and_then :
      {A B : Type 0} (start low low' : ℕ) (r : Parse A) (f : A → Step B)
      → Ends X bytes start low r
      → ((a : A) (s : Deser) → low ≤ s.pos → s.pos ≤ length bytes → Ends X bytes start low' (f a s))
      → Ends X bytes start low' (and_then r f)
  unfolding Ends
  Ends-and_then start low low' (parsed a s) f h k = k a s h.0 h.1
  Ends-and_then start low low' (refused e s) f h k = h
  Ends-and_then start low low' crashed f h k = h
  Ends-and_then start low low' exhausted f h k = h

  pub Ends-from :
      {A : Type 0} (start start' low low' : ℕ) (r : Parse A)
      → start ≤ start'
      → low ≤ low'
      → Ends X bytes start' low' r
      → Ends X bytes start low r
  unfolding Ends
  Ends-from start start' low low' (parsed a s) h k e = (omega (arith, e.0), e.1)
  Ends-from start start' low low' (refused e' s) h k e = (omega (arith, e.0), e.1)
  Ends-from start start' low low' crashed h k e = e
  Ends-from start start' low low' exhausted h k e = e

  Ends-wrap :
      {A : Type 0} (t : Bytes) (start low : ℕ) (r : Parse A)
      → Ends X bytes start low r
      → Ends X bytes start low (wrap_result t r)
  unfolding Ends
  Ends-wrap t start low (parsed a s) h = h
  Ends-wrap t start low (refused e s) h = h
  Ends-wrap t start low crashed h = h
  Ends-wrap t start low exhausted h = h

module _ {X : Type 0} {bytes : Bytes} where
  -- A first step and what follows, which has `k'` bytes at most behind it.
  pub Runs-bind :
      {A B : Type 0} {pre eat k k' : ℕ} {m : Step A} {f : A → Step B}
      → Runs X bytes pre eat k m
      → ((a : A) → Runs X bytes 0 0 k' (f a))
      → k ≤ eat + k'
      → Runs X bytes pre eat k (m >>= f)
  Runs-bind {eat = eat} {m = m} {f = f} hm hf h = record {
    run = λ s p q.
        Ends-and_then X bytes s.pos (s.pos + eat) (s.pos + eat) (m s) f (hm.run s p q)
          (λ a s' low high.
            Ends-from X bytes s.pos s'.pos (s.pos + eat) (s'.pos + 0) (f a s') (omega arith)
              (omega arith) ((hf a).run s' (omega arith) (omega arith)));
  }

  pub Runs-then :
      {A B : Type 0} {pre eat k : ℕ} {m : Step A} {f : A → Step B}
      → Runs X bytes pre eat k m
      → ((a : A) → Runs X bytes 0 0 k (f a))
      → Runs X bytes pre eat k (m >>= f)
  Runs-then hm hf = Runs-bind hm hf (omega arith)

  pub Runs-seq_bind :
      {B : Type 0} {pre eat k k' : ℕ} {m : Step (Unit {0})} {m' : Step B}
      → Runs X bytes pre eat k m
      → Runs X bytes 0 0 k' m'
      → k ≤ eat + k'
      → Runs X bytes pre eat k (m >> m')
  Runs-seq_bind h h' le = Runs-bind h (λ _. h') le

  pub Runs-seq :
      {B : Type 0} {pre eat k : ℕ} {m : Step (Unit {0})} {m' : Step B}
      → Runs X bytes pre eat k m
      → Runs X bytes 0 0 k m'
      → Runs X bytes pre eat k (m >> m')
  Runs-seq h h' = Runs-then h (λ _. h')

  pub Runs-weaken :
      {A : Type 0} {pre pre' eat eat' k k' : ℕ} {m : Step A}
      → Runs X bytes pre eat k m
      → pre ≤ pre'
      → eat' ≤ eat
      → k' ≤ k
      → Runs X bytes pre' eat' k' m
  Runs-weaken {eat = eat} {eat' = eat'} {m = m} h a b c = record {
    run = λ s p q.
        Ends-from X bytes s.pos s.pos (s.pos + eat') (s.pos + eat) (m s) (omega arith) (omega arith)
          (h.run s (omega arith) (omega arith));
  }

  -- A run that asks for less and says more.
  pub Runs-less :
      {A : Type 0} {pre pre' eat eat' k : ℕ} {m : Step A}
      → Runs X bytes pre eat k m
      → pre ≤ pre'
      → eat' ≤ eat
      → Runs X bytes pre' eat' k m
  Runs-less h a b = Runs-weaken h a b (omega arith)

  pub Runs-if :
      {A : Type 0} {pre eat k : ℕ} {m m' : Step A} (b : Bool)
      → Runs X bytes pre eat k m
      → Runs X bytes pre eat k m'
      → Runs X bytes pre eat k (if b then m else m')
  Runs-if true h h' = h
  Runs-if false h h' = h'

  pub Runs-wrap :
      {A : Type 0} {pre eat k : ℕ} {m : Step A} (t : Bytes)
      → Runs X bytes pre eat k m
      → Runs X bytes pre eat k (wrap_error t m)
  Runs-wrap {eat = eat} {m = m} t h = record {
    run = λ s p q. Ends-wrap X bytes t s.pos (s.pos + eat) (m s) (h.run s p q);
  }

  -- A step that leaves the position where it is.
  pub Runs-still :
      {A : Type 0} {k : ℕ} (f : Deser → A) (g : Deser → Deser)
      → ((s : Deser) → (g s).pos ≡ s.pos)
      → Runs X bytes 0 0 k (λ s. parsed (f s) (g s))
  unfolding Ends
  Runs-still f g e = record { run = λ s p q. omega (arith, e s) }

  pub Runs-pure : {A : Type 0} {k : ℕ} {a : A} → Runs X bytes 0 0 k (pure a)
  Runs-pure {a = a} = Runs-still (λ _. a) (λ s. s) (λ s. refl)

  pub Runs-refuse :
      {A : Type 0} {pre eat k : ℕ} (e : Deser → Error)
      → Runs X bytes {A = A} pre eat k (λ s. refused (e s) s)
  unfolding Ends
  Runs-refuse e = record { run = λ s p q. omega arith }

  pub Runs-throw :
      {A : Type 0} {pre eat k : ℕ} (t : Bytes) → Runs X bytes {A = A} pre eat k (throw t)
  unfolding throw
  Runs-throw t = Runs-refuse (λ _. errorf t)

  pub Runs-get_state :
      {A : Type 0} {pre eat k : ℕ} {f : Deser → Step A}
      → ((d : Deser) → Runs X bytes pre eat k (f d))
      → Runs X bytes pre eat k (get_state >>= f)
  Runs-get_state h = record { run = λ s p q. (h s).run s p q }

  pub Runs-advance : {k : ℕ} → Runs X bytes 1 1 k (advance 1)
  unfolding Ends
  Runs-advance = record { run = λ s p q. omega arith }

  pub Runs-read_bytes : {k : ℕ} (n : ℕ) (t : Bytes) → Runs X bytes 0 n k (read_bytes bytes n t)
  unfolding Ends read_bytes
  Runs-read_bytes n t = record { run = λ s p q. ground arith }

  pub Runs-expect : {k : ℕ} (tag : ℕ) (t : Bytes) → Runs X bytes 0 1 k (expect bytes tag t)
  unfolding Ends expect
  Runs-expect tag t = record { run = λ s p q. ground arith }

  pub Runs-peek :
      {A : Type 0} {eat k : ℕ} {f : ℕ → Step A} (t : Bytes)
      → ((c : ℕ) → Runs X bytes 1 eat k (f c))
      → Runs X bytes 0 eat k (peek bytes t >>= f)
  unfolding Ends peek
  Runs-peek {f = f} t h = record {
    run = λ s p q. elim (Bool-cases (leb (length bytes) s.pos)) [
      | inl e ↦ rw e (omega arith)
      | inr e ↦ rw e ((h (at bytes s.pos)).run s (ground arith) (omega arith))
    ];
  }

  -- At the end of the bytes.
  pub Runs-peek_end :
      {A : Type 0} {eat : ℕ} (t : Bytes) (f : ℕ → Step A)
      → Runs X bytes 0 eat 0 (peek bytes t >>= f)
  unfolding Ends peek
  Runs-peek_end t f = record {
    run = λ s p q. rw (le→leb (length bytes) s.pos (omega (arith, q))) (omega arith);
  }

  -- There are never more bytes left than bytes.
  pub Runs-all :
      {A : Type 0} {pre eat k : ℕ} {m : Step A}
      → Runs X bytes pre eat (length bytes) m
      → Runs X bytes pre eat k m
  Runs-all h = record { run = λ s p q. h.run s p (omega arith) }

  pub Runs-out : {A : Type 0} {pre eat k : ℕ} → X → Runs X bytes {A = A} pre eat k out_of_rounds
  unfolding Ends
  Runs-out x = record { run = λ s p q. x }
