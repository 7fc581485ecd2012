-- ===== src/App/Handler/Rounds.antt =====
-- main.go: the handlers of Redis, RocketMQ, HTTP, ZooKeeper and WebSocket, each as a round of its
-- loop. The parameters are those of the readers and of the texts of these protocols; `key_re` is
-- what the regular expression for keys matches, if there is one.
use tcp_port.App.Handler.{
  Env, Session, Turn, after_request, after_response, after_text, check_cost, crash, go_on, is_url,
  send, write_line, write_req_line, write_resp_line,
}
use tcp_port.Base.Reader.{Reading, done, failed, panicked}
use tcp_port.Base.Outcome.{Outcome, ok, fail, panic}
use tcp_port.Zookeeper.{ZkMessage, request, response, read_zk_message}
use tcp_port.Base.Int.{pos, eq_ℤ, ℤ}
use tcp_port.Base.{
  Bool, List, Option, [], false, if◌then◌else◌, length, none, not, some, true, ℕ, ◌&&◌, ◌++◌, ◌==◌,
  ◌||◌,
}
use tcp_port.Base.Slice.{Bytes}
use tcp_port.Base.Text.{codes}
use tcp_port.Http.{HttpMessage, format_http, format_http_url, read_http_message}
use tcp_port.Redis.{RespCommand, RespResponse, read_resp_command}
use tcp_port.Redis.Format.{format_resp_command, format_resp_response, format_resp_url, second}
use tcp_port.Redis.Reply.{read_resp_response}
use tcp_port.Rocketmq.{RemotingCommand}
use tcp_port.Rocketmq.Format.{
  format_remoting_command, format_remoting_response, format_remoting_url,
}
use tcp_port.Rocketmq.Reader.{read_remoting_command}
use tcp_port.Tcp.Wildcard.{wildcard_match}
use tcp_port.Websocket.Format.{format_websocket_message, format_websocket_url}
use tcp_port.Websocket.Frame.{WebSocketMessage, read_websocket_message}
use tcp_port.Zookeeper.Format.{format_zk_request, format_zk_response, format_zk_url}
use tcp_port.App.Handler.{Handled, crashed, run}

abbrev pub text_for : Env → Bytes → Bytes → Bytes
text_for e url all = write_line (if is_url e then url else all)

-- The buffer with a response.
abbrev pub with_response : Env → ℕ → ℕ → Bytes → Bytes → Bytes
with_response e k i buf t = buf ++ (write_resp_line e k i ++ write_line t)

module _ (fields : Bytes → List Bytes) (to_upper : Bytes → Bytes) (e : Env) (command : Bytes)
    (key_re : Option (Bytes → Bool)) where
  abbrev misses_key : Option (Bytes → Bool) → List Bytes → Bool
  misses_key none args = false
  misses_key (some re) args = not (re (second args))

  abbrev pub redis_skips : RespCommand → Bool
  redis_skips cmd =
      (not (length command == 0) && not (wildcard_match (to_upper cmd.command) (to_upper command)))
      || misses_key key_re cmd.args

  -- The response to a command that is left out.
  abbrev pub drop_response : Session → Reading RespResponse → Turn
  drop_response s (done a r) = go_on (record s { responses = r })
  drop_response s (failed err r) = go_on (record s { responses = r })
  drop_response s panicked = crash

  abbrev pub redis_text : ℕ → RespCommand → Bytes
  redis_text k cmd =
      write_req_line e k ++ text_for e (format_resp_url cmd) (format_resp_command to_upper cmd)

  abbrev pub redis_answer : ℕ → Bytes → RespResponse → Session → Turn
  redis_answer k buf resp s =
      if check_cost e k 0
      then go_on
          (send (if is_url e then buf else with_response e k 1 buf (format_resp_response resp)) s)
      else go_on s

  abbrev pub redis_command : ℕ → RespCommand → Session → Turn
  redis_command k cmd s =
      if redis_skips cmd
      then drop_response s (read_resp_response s.responses)
      else after_response (redis_text k cmd) (redis_answer k (redis_text k cmd)) s
          (read_resp_response s.responses)

  -- A round of `redisHandler.Handle`.
  unfoldable pub redis_round : ℕ → Session → Turn
  redis_round k s = after_request (redis_command k) s (read_resp_command fields to_upper s.requests)

-- `redisHandler.Handle`. `compile` stands for `regexp.MustCompile`, which panics on an expression that
-- is none, with `MatchString` of what it gives.
abbrev pub compiled : (Option (Bytes → Bool) → Handled) → Option (Bytes → Bool) → Handled
compiled handle none = crashed
compiled handle (some re) = handle (some re)

unfoldable pub redis_handler :
    (Bytes → List Bytes)
    → (Bytes → Bytes)
    → (Bytes → Option (Bytes → Bool))
    → Env
    → Bytes
    → Bytes
    → Session
    → Handled
redis_handler fields to_upper compile e command key s =
    let handle =
      λ (key_re : Option (Bytes → Bool)). run (redis_round fields to_upper e command key_re) s in
    if length key == 0 then handle none else compiled handle (compile key)

module _ (unmarshal : Bytes → RemotingCommand → Option RemotingCommand) (e : Env) (code : ℤ) where
  -- `h.Proto.RMQCode != 0 && req.Code != h.Proto.RMQCode`, which panics if the command is nil.
  abbrev pub rocketmq_skips : Option RemotingCommand → Outcome Bool
  rocketmq_skips none = if eq_ℤ code (pos 0) then ok false else panic
  rocketmq_skips (some req) = ok (not (eq_ℤ code (pos 0)) && not (eq_ℤ req.code code))

  abbrev pub rocketmq_answer : ℕ → Bytes → Option RemotingCommand → Session → Turn
  rocketmq_answer k buf resp s =
      if not (check_cost e k 0)
      then go_on s
      else if is_url e
      then go_on (send buf s)
      else after_text (λ t. go_on (send (with_response e k 1 buf t) s))
          (format_remoting_response resp)

  abbrev pub rocketmq_exchange : ℕ → Session → Bytes → Turn
  rocketmq_exchange k s t =
      let buf = write_req_line e k ++ write_line t in
      after_response buf (rocketmq_answer k buf) s (read_remoting_command unmarshal s.responses)

  abbrev pub rocketmq_kept : ℕ → Option RemotingCommand → Session → Outcome Bool → Turn
  rocketmq_kept k req s (ok true) = go_on s
  rocketmq_kept k req s (ok false) =
      after_text (rocketmq_exchange k s)
        (if is_url e then format_remoting_url req else format_remoting_command req)
  rocketmq_kept k req s (fail x) = crash
  rocketmq_kept k req s panic = crash

  -- A round of `rocketmqHandler.Handle`.
  unfoldable pub rocketmq_round : ℕ → Session → Turn
  rocketmq_round k s =
      after_request (λ req s'. rocketmq_kept k req s' (rocketmq_skips req)) s
        (read_remoting_command unmarshal s.requests)

module _ (trim_space to_lower : Bytes → Bytes) (scan_int : Bytes → Option ℤ) (e : Env) where
  abbrev pub http_answer : ℕ → Bytes → HttpMessage → Session → Turn
  http_answer k buf resp s = go_on (
      send
        (if check_cost e k 0 && not (is_url e)
          then with_response e k 1 buf (format_http resp)
          else buf)
        s)

  abbrev pub http_text : ℕ → HttpMessage → Bytes
  http_text k req = write_req_line e k ++ text_for e (format_http_url req) (format_http req)

  abbrev pub http_exchange : ℕ → HttpMessage → Session → Turn
  http_exchange k req s =
      after_response (http_text k req) (http_answer k (http_text k req)) s
        (read_http_message trim_space to_lower scan_int s.responses)

  -- A round of `httpHandler.Handle`.
  unfoldable pub http_round : ℕ → Session → Turn
  http_round k s =
      after_request (http_exchange k) s (read_http_message trim_space to_lower scan_int s.requests)

module _ (e : Env) where
  abbrev zk_response_text : ZkMessage → Bytes
  zk_response_text (request req) = []
  zk_response_text (response resp) = write_line (format_zk_response resp)

  abbrev pub zookeeper_answer : ℕ → Bytes → ZkMessage → Session → Turn
  zookeeper_answer k buf resp s =
      if check_cost e k 0
      then go_on (send (buf ++ (write_resp_line e k 1 ++ zk_response_text resp)) s)
      else go_on s

  abbrev pub zookeeper_exchange : ℕ → ZkMessage → Session → Turn
  zookeeper_exchange k (response resp) s = go_on s
  zookeeper_exchange k (request req) s =
      let buf = write_req_line e k ++ text_for e (format_zk_url req) (format_zk_request req) in
      after_response buf (zookeeper_answer k buf) s (read_zk_message (codes "S->C") s.responses)

  -- A round of `zookeeperHandler.Handle`.
  unfoldable pub zookeeper_round : ℕ → Session → Turn
  zookeeper_round k s =
      after_request (zookeeper_exchange k) s (read_zk_message (codes "C->S") s.requests)

module _ (quote : Bytes → Bytes) (e : Env) where
  abbrev pub websocket_shown : ℕ → WebSocketMessage → Session → Turn
  websocket_shown k msg s = go_on (
      send
        (write_req_line e k
          ++ text_for e (format_websocket_url msg) (format_websocket_message quote msg))
        s)

  -- A round of `websocketHandler.Handle`.
  unfoldable pub websocket_round : ℕ → Session → Turn
  websocket_round k s =
      after_request (websocket_shown k) s (read_websocket_message quote (codes "C->S") s.requests)
