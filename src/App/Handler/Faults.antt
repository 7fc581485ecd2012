-- ===== src/App/Handler/Faults.antt =====
-- What goes wrong in the handlers of main.go.
use tcp_port.App.Handler.{leave, finished, flush}
use tcp_port.App.Handler.{
  Env, Session, Turn, check_cost, is_url, rounds, run, send, write_line, write_req_line,
}
use tcp_port.App.Handler.Rounds.{http_round, http_text, rocketmq_round, with_response}
use tcp_port.Base.{
  Option, [], arith, false, length, length-append, refl, some, suc, true, ℕ, ◌++◌, ◌<◌, ◌∷◌, ◌≡◌,
}
use tcp_port.Base.Int.{eq_ℤ, pos, ℤ}
use tcp_port.Base.Outcome.{Error}
use tcp_port.Base.Reader.{done, failed}
use tcp_port.Base.Slice.{Bytes}
use tcp_port.Base.Text.{codes}
use tcp_port.Http.{HttpMessage, read_http_message}
use tcp_port.Rocketmq.{RemotingCommand}
use tcp_port.Rocketmq.Format.{
  format_command, format_remoting_command, format_remoting_response, format_response,
}
use tcp_port.Rocketmq.Reader.{read_remoting_command}

flush-send : (s : Session) (buf : Bytes) → 0 < length buf → flush s buf ≡ send buf s
flush-send s [] h = absurd (omega (arith, h))
flush-send s (c ∷ cs) h = refl

write_req_line-some : (e : Env) (k : ℕ) (t : Bytes) → 0 < length (write_req_line e k ++ t)
unfolding write_req_line
write_req_line-some e k t =
    let rest = codes " [" ++ (e.src ++ (codes " -----> " ++ (e.dst ++ (codes "]" ++ (10 ∷ []))))) in
    omega (arith, length-append (e.stamp k ++ rest) t, length-append (e.stamp k) rest)

-- A first round that is left with its buffer sent has the buffer sent again.
run-leave :
    (turn : ℕ → Session → Turn) (s s' : Session) (buf : Bytes)
    → turn 0 s ≡ leave (send buf s') buf
    → 0 < length buf
    → run turn s ≡ finished (send buf (send buf s'))
unfolding run rounds
run-leave turn s s' buf h k = rw (h, flush-send (send buf s') buf k) refl

module _ (trim_space to_lower : Bytes → Bytes) (scan_int : Bytes → Option ℤ) (e : Env) where
  -- A request of HTTP whose response cannot be read is sent to the printer twice: once when the error
  -- is met, and once more behind the loop, since the buffer still has it.
  pub http_round-sent_twice :
      (s : Session) (req : HttpMessage) (x : Error) (r r' : Bytes)
      → read_http_message trim_space to_lower scan_int s.requests ≡ done req r
      → read_http_message trim_space to_lower scan_int s.responses ≡ failed x r'
      → let t = http_text trim_space to_lower scan_int e 0 req in
        run (http_round trim_space to_lower scan_int e) s
        ≡ finished
            (record { requests = r; responses = r'; sent = (s.sent ++ (t ∷ [])) ++ (t ∷ []) })
  unfolding http_round
  http_round-sent_twice s req x r r' h k =
      run-leave (http_round trim_space to_lower scan_int e) s
        (record { requests = r; responses = r'; sent = s.sent })
        (http_text trim_space to_lower scan_int e 0 req) (rw (http_round, h, k) refl)
        (write_req_line-some e 0 _)

module _ (unmarshal : Bytes → RemotingCommand → Option RemotingCommand) (e : Env) (code : ℤ) where
  -- With a filter on the code, the response to a command of RocketMQ that is left out is not read: it
  -- is shown as the response to the next command that is not. The call passes the filter on its
  -- cost, and responses are shown.
  pub rocketmq_round-mispaired :
      (s : Session) (n : ℕ) (q q' a : RemotingCommand) (r r' r'' : Bytes)
      → length s.requests ≡ suc n
      → eq_ℤ code (pos 0) ≡ false
      → read_remoting_command unmarshal s.requests ≡ done (some q) r
      → eq_ℤ q.code code ≡ false
      → read_remoting_command unmarshal r ≡ done (some q') r'
      → eq_ℤ q'.code code ≡ true
      → read_remoting_command unmarshal s.responses ≡ done (some a) r''
      → check_cost e 1 0 ≡ true
      → is_url e ≡ false
      → run (rocketmq_round unmarshal e code) s
        ≡ rounds (rocketmq_round unmarshal e code) n 2 (record {
          requests = r';
          responses = r'';
          sent =
              s.sent
              ++ (with_response e 1 1
                    (write_req_line e 1 ++ write_line (format_command q'))
                    (format_response a)
                  ∷ []);
        })
  unfolding run rounds rocketmq_round format_remoting_command format_remoting_response
  rocketmq_round-mispaired s n q q' a r r' r'' l c h m h' m' k p u =
      rw (l, h, c, m, h', c, m', u, k, p, u) refl
