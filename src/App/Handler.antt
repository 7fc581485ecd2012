-- ===== src/App/Handler.antt =====
-- main.go: `baseHandler`, and the loop that the handlers of the protocols share. What a handler reads
-- from is what is left of the two streams of its connection; `sent` are the texts that it has handed
-- to the printer. A handler is alone with its streams, so the bytes of a stream are all there.
pub mod Loop
pub mod Rounds
pub mod Batches
pub mod BatchEnds
pub mod BatchFaults
pub mod Readers
pub mod Ends
pub mod Exchanges
pub mod Faults
use tcp_port.App.Cost.{match_cost}
use tcp_port.Base.{
  Bool, List, Option, [], equal, if◌then◌else◌, length, suc, true, zero, ℕ, ◌++◌, ◌==◌, ◌∷◌,
}
use tcp_port.Base.Int.{ℤ}
use tcp_port.Base.Outcome.{Outcome, fail, ok, panic}
use tcp_port.Base.Reader.{Reading, done, failed, panicked}
use tcp_port.Base.Slice.{Bytes}
use tcp_port.Base.Text.{codes, dec_ℤ}

pub record Session : Type 0 where
  pub requests : Bytes
  pub responses : Bytes
  pub sent : List Bytes

-- What a handler is made with. `stamp` is the text of `reqTime` in a round of its loop, `elapsed` are
-- the milliseconds since then at a call in that round; `trim_space` and `parse_int` stand for those
-- of packages strings and strconv.
pub record Env : Type 0 where
  pub src : Bytes
  pub dst : Bytes
  pub level : Bytes
  pub cost : Bytes
  pub stamp : ℕ → Bytes
  pub elapsed : ℕ → ℕ → ℤ
  pub trim_space : Bytes → Bytes
  pub parse_int : Bytes → Option ℤ

abbrev pub is_url : Env → Bool
is_url e = equal e.level (codes "url")

-- `writeLine` of a text.
abbrev pub write_line : Bytes → Bytes
write_line s = s ++ (10 ∷ [])

-- `writeReqLine`
unfoldable pub write_req_line : Env → ℕ → Bytes
write_req_line e k =
    e.stamp k
    ++ (codes " [" ++ (e.src ++ (codes " -----> " ++ (e.dst ++ (codes "]" ++ (10 ∷ []))))))

-- `writeRespLine`, as all handlers call it; `i` is the call of the clock.
unfoldable pub write_resp_line : Env → ℕ → ℕ → Bytes
write_resp_line e k i =
    e.stamp k
    ++ (codes " ["
        ++ (e.src
            ++ (codes " <----- "
                ++ (e.dst
                    ++ (codes "] (" ++ (dec_ℤ (e.elapsed k i) ++ (codes "ms)" ++ (10 ∷ []))))))))

-- `checkCost`
unfoldable pub check_cost : Env → ℕ → ℕ → Bool
check_cost e k i =
    if length e.cost == 0 then true else match_cost e.trim_space e.parse_int (e.elapsed k i) e.cost

-- `send`
abbrev pub send : Bytes → Session → Session
send buf s = record s { sent = s.sent ++ (buf ∷ []) }

-- The end of a round: the next one, `break` with what is in the buffer, or a panic.
pub data Turn : Type 0 where
  go_on : Session → Turn
  leave : Session → Bytes → Turn
  crash : Turn

-- The request that a round begins with, and what is done with it; an error ends the loop while the
-- buffer is empty.
abbrev pub after_request : {A : Type 0} → (A → Session → Turn) → Session → Reading A → Turn
after_request next s (done a r) = next a (record s { requests = r })
after_request next s (failed e r) = leave (record s { requests = r }) []
after_request next s panicked = crash

-- The response to the request in the buffer; an error sends the buffer and ends the loop.
abbrev pub after_response : {A : Type 0} → Bytes → (A → Session → Turn) → Session → Reading A → Turn
after_response buf next s (done a r) = next a (record s { responses = r })
after_response buf next s (failed e r) = leave (send buf (record s { responses = r })) buf
after_response buf next s panicked = crash

-- A text that may panic.
abbrev pub after_text : (Bytes → Turn) → Outcome Bytes → Turn
after_text next (ok t) = next t
after_text next (fail e) = crash
after_text next panic = crash

pub data Handled : Type 0 where
  finished : Session → Handled
  crashed unfinished : Handled

-- `if h.hasContent() { h.send() }` behind the loop.
abbrev pub flush : Session → Bytes → Session
flush s [] = s
flush s (c ∷ cs) = send (c ∷ cs) s

abbrev pub after_turn : (Session → Handled) → Turn → Handled
after_turn next (go_on s) = next s
after_turn next (leave s buf) = finished (flush s buf)
after_turn next crash = crashed

-- The loop, from round `k` on, with a bound on its rounds.
unfoldable pub rounds : (ℕ → Session → Turn) → ℕ → ℕ → Session → Handled
rounds turn zero k s = unfinished
rounds turn (suc n) k s = after_turn (rounds turn n (suc k)) (turn k s)

-- Every round that goes on takes a byte of the requests.
unfoldable pub run : (ℕ → Session → Turn) → Session → Handled
run turn s = rounds turn (suc (length s.requests)) 0 s
