-- ===== src/App/Handler/Exchanges.antt =====
-- What the handler of Redis (main.go) makes of commands and their replies.
use tcp_port.Redis.RoundTrip.{encode_line}
use tcp_port.Redis.Reply.{new_response}
use tcp_port.App.Handler.{Env, Session, is_url}
use tcp_port.App.Handler.Rounds.{redis_text, with_response}
use tcp_port.Base.{
  All, List, [], arith, if◌then◌else◌, length, none, suc, ℕ, ◌*◌, ◌++◌, ◌+◌, ◌∙◌, ◌∷◌, ◌≡◌, ◌≤◌,
}
use tcp_port.Base.Reader.{bind-done, done, read_string}
use tcp_port.Base.Slice.{Bytes}
use tcp_port.Base.Text.{dec, join}
use tcp_port.Redis.{RespCommand, line_mark, max_alloc}
use tcp_port.Redis.Format.{format_resp_response}
use tcp_port.Redis.Reply.{read_replies, read_resp_response, reply_round, reply_to}
use tcp_port.Redis.RoundTrip.{IsPlain, encode_args, lines_of, read_string-plain, trim_line-plain}
use tcp_port.App.Handler.{check_cost, finished, go_on, rounds, run}
use tcp_port.App.Handler.Rounds.{redis_handler, redis_round}
use tcp_port.Base.{Bool, Option, ap, append_assoc, length-append, true, zero, ◌<◌}
use tcp_port.Redis.RoundTrip.{bulk_header, read_resp_command-encode}
use tcp_port.App.Handler.{leave}
use tcp_port.Base.{append-nil, refl}
use tcp_port.Redis.{read_resp_command}

-- A status reply is read back.
read_resp_response-status :
    (t rest : Bytes)
    → All IsPlain t
    → read_resp_response (encode_line (b'+' ∷ t) rest) ≡ done (new_response (b'+' ∷ t) t) rest
unfolding read_resp_response read_replies reply_round reply_to
read_resp_response-status t rest h =
    let line = b'+' ∷ t in
    let plain : All IsPlain line = ((omega arith, omega arith), h) in
    bind-done (read_string 10) _ (encode_line line rest) rest (line ++ (13 ∷ 10 ∷ []))
      (read_string-plain line rest plain)
    ∙ rw (trim_line-plain line plain) (ground arith)

-- A command and the status that answers it.
abbrev pub Exchange : Type 0
Exchange = List Bytes × Bytes

abbrev pub IsExchange : Exchange → Type 0
IsExchange (ss, t) =
    (length ss * 16 ≤ max_alloc) × All (λ a. length a + 2 ≤ max_alloc) ss × All IsPlain t

unfoldable pub requests_of : List Exchange → Bytes
requests_of [] = []
requests_of ((ss, t) ∷ xs) = encode_line (b'*' ∷ dec (length ss)) (encode_args ss (requests_of xs))

unfoldable pub responses_of : List Exchange → Bytes
responses_of [] = []
responses_of ((ss, t) ∷ xs) = encode_line (b'+' ∷ t) (responses_of xs)

length-encode_args : (ss : List Bytes) (rest : Bytes) → length rest ≤ length (encode_args ss rest)
unfolding encode_args
length-encode_args [] rest = omega arith
length-encode_args (a ∷ ss) rest = omega (
  arith,
  length-encode_args ss rest,
  length-append a (13 ∷ 10 ∷ encode_args ss rest),
  length-append (bulk_header a) (13 ∷ 10 ∷ (a ++ (13 ∷ 10 ∷ encode_args ss rest))),
)

length-requests_of : (xs : List Exchange) → length xs ≤ length (requests_of xs)
unfolding requests_of
length-requests_of [] = omega arith
length-requests_of ((ss, t) ∷ xs) = omega (
  arith,
  length-requests_of xs,
  length-encode_args ss (requests_of xs),
  length-append (b'*' ∷ dec (length ss)) (13 ∷ 10 ∷ encode_args ss (requests_of xs)),
)

abbrev pub session_of : List Exchange → List Bytes → Session
session_of xs sent = record { requests = requests_of xs; responses = responses_of xs; sent = sent }

module _ (fields : Bytes → List Bytes) (to_upper : Bytes → Bytes) (e : Env) where
  abbrev pub command_read : List Bytes → RespCommand
  command_read ss = record {
    raw = join line_mark ((b'*' ∷ dec (length ss)) ∷ lines_of ss);
    command = elim ss [ [] ↦ [] | s ∷ _ ↦ to_upper s ];
    args = ss;
    arg_count = length ss;
  }

  -- The text of an exchange in round `k`: the command, and but for the short form the reply.
  abbrev pub text_of_exchange : ℕ → Exchange → Bytes
  text_of_exchange k (ss, t) =
      let buf = redis_text fields to_upper e [] none k (command_read ss) in
      if is_url e
      then buf
      else with_response e k 1 buf (format_resp_response (new_response (b'+' ∷ t) t))

  unfoldable pub texts_of : ℕ → List Exchange → List Bytes
  texts_of k [] = []
  texts_of k (x ∷ xs) = text_of_exchange k x ∷ texts_of (suc k) xs

  module _ (passes : (k : ℕ) → check_cost e k 0 ≡ true) where
    redis_round-exchange :
        (k : ℕ) (x : Exchange) (xs : List Exchange) (sent : List Bytes)
        → IsExchange x
        → redis_round fields to_upper e [] none k (session_of (x ∷ xs) sent)
          ≡ go_on (session_of xs (sent ++ (text_of_exchange k x ∷ [])))
    unfolding redis_round requests_of responses_of
    redis_round-exchange k (ss, t) xs sent h =
        rw
          (
            read_resp_command-encode fields to_upper ss (requests_of xs) h.0 h.1,
            read_resp_response-status t (responses_of xs) h.2,
            passes k,
          )
          refl

    redis_round-end :
        (k : ℕ) (sent : List Bytes)
        → redis_round fields to_upper e [] none k (session_of [] sent)
          ≡ leave (session_of [] sent) []
    unfolding redis_round requests_of responses_of read_resp_command read_string
    redis_round-end k sent = refl

    rounds-exchanges :
        (n k : ℕ) (xs : List Exchange) (sent : List Bytes)
        → All IsExchange xs
        → length xs < n
        → rounds (redis_round fields to_upper e [] none) n k (session_of xs sent)
          ≡ finished (session_of [] (sent ++ texts_of k xs))
    unfolding rounds texts_of
    rounds-exchanges zero k xs sent h l = absurd (omega (arith, l))
    rounds-exchanges (suc n) k [] sent h l = rw (redis_round-end k sent, append-nil sent) refl
    rounds-exchanges (suc n) k (x ∷ xs) sent h l = rw (redis_round-exchange k x xs sent h.0) (
        rounds-exchanges n (suc k) xs (sent ++ (text_of_exchange k x ∷ [])) h.1 (omega (arith, l))
        ∙ ap (λ ts. finished (session_of [] ts))
            (append_assoc sent (text_of_exchange k x ∷ []) (texts_of (suc k) xs)))

    -- Commands on one stream, each with its status on the other: the handler without filters reads
    -- them all, comes to an end, and has sent one text for each, in their order: at the level `url`
    -- the text of the command alone, at any other level the command and its own reply. Every call
    -- passes the filter on its cost; the commands may hold any bytes, and the replies no byte of a
    -- line's end.
    pub redis_handler-exchanges :
        (compile : Bytes → Option (Bytes → Bool)) (xs : List Exchange)
        → All IsExchange xs
        → redis_handler fields to_upper compile e [] [] (session_of xs [])
          ≡ finished (record { requests = []; responses = []; sent = texts_of 0 xs })
    unfolding redis_handler run requests_of responses_of
    redis_handler-exchanges compile xs h =
        rounds-exchanges (suc (length (requests_of xs))) 0 xs [] h
          (omega (arith, length-requests_of xs))
