-- ===== src/App/Handler/Loop.antt =====
-- The loop of a handler (main.go) ends.
use tcp_port.Base.Leaves.{Eats}
use tcp_port.App.Handler.{Session, Turn, go_on, leave, crash, Handled, unfinished}
use tcp_port.App.Handler.{after_request, after_response, after_text, after_turn, rounds, run}
use tcp_port.Base.{Bool, arith, false, if◌then◌else◌, length, suc, true, zero, ℕ, ◌<◌, ◌≢◌}
use tcp_port.Base.Outcome.{Outcome, fail, ok, panic}
use tcp_port.Base.Reader.{Reading, done, failed, panicked}
use tcp_port.Base.Slice.{Bytes}

-- A round that goes on with fewer than `l` bytes of requests.
unfoldable pub Shrinks : ℕ → Turn → Type 0
Shrinks l (go_on s) = length s.requests < l
Shrinks l (leave s buf) = Unit {0}
Shrinks l crash = Unit {0}

pub after_request-Shrinks :
    {A : Type 0} (next : A → Session → Turn) (s : Session) (l : ℕ) (x : Reading A)
    → Eats l x
    → ((a : A) (s' : Session) → length s'.requests < l → Shrinks l (next a s'))
    → Shrinks l (after_request next s x)
unfolding Shrinks Eats
after_request-Shrinks next s l (done a r) h k = k a (record s { requests = r }) h
after_request-Shrinks next s l (failed e r) h k = tt
after_request-Shrinks next s l panicked h k = tt

pub after_response-Shrinks :
    {A : Type 0} (buf : Bytes) (next : A → Session → Turn) (s : Session) (l : ℕ) (x : Reading A)
    → length s.requests < l
    → ((a : A) (s' : Session) → length s'.requests < l → Shrinks l (next a s'))
    → Shrinks l (after_response buf next s x)
unfolding Shrinks
after_response-Shrinks buf next s l (done a r) h k = k a (record s { responses = r }) h
after_response-Shrinks buf next s l (failed e r) h k = tt
after_response-Shrinks buf next s l panicked h k = tt

pub after_text-Shrinks :
    (next : Bytes → Turn) (l : ℕ) (x : Outcome Bytes)
    → ((t : Bytes) → Shrinks l (next t))
    → Shrinks l (after_text next x)
unfolding Shrinks
after_text-Shrinks next l (ok t) k = k t
after_text-Shrinks next l (fail e) k = tt
after_text-Shrinks next l panic k = tt

pub if-Shrinks :
    (b : Bool) (l : ℕ) (t u : Turn) → Shrinks l t → Shrinks l u → Shrinks l (if b then t else u)
if-Shrinks true l t u h k = h
if-Shrinks false l t u h k = k

after_turn-ends :
    (next : Session → Handled) (l : ℕ) (t : Turn)
    → Shrinks l t
    → ((s : Session) → length s.requests < l → next s ≢ unfinished)
    → after_turn next t ≢ unfinished
unfolding Shrinks
after_turn-ends next l (go_on s) h k = k s h
after_turn-ends next l (leave s buf) h k = λ e. cc
after_turn-ends next l crash h k = λ e. cc

module _ (turn : ℕ → Session → Turn)
    (shrinks : (k : ℕ) (s : Session) → Shrinks (length s.requests) (turn k s)) where
  rounds-ends : (n k : ℕ) (s : Session) → length s.requests < n → rounds turn n k s ≢ unfinished
  unfolding rounds
  rounds-ends zero k s h = absurd (omega (arith, h))
  rounds-ends (suc n) k s h =
      after_turn-ends (rounds turn n (suc k)) (length s.requests) (turn k s) (shrinks k s)
        (λ s' e. rounds-ends n (suc k) s' (omega (arith, e, h)))

  -- A loop whose rounds take a byte of the requests, or end it, ends.
  pub run-ends : (s : Session) → run turn s ≢ unfinished
  unfolding run
  run-ends s = rounds-ends (suc (length s.requests)) 0 s (omega arith)
