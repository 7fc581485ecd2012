-- ===== src/App/Handler/Ends.antt =====
-- The handlers of main.go come to an end.
use tcp_port.Base.{suc}
use tcp_port.Base.Reader.{Read}
use tcp_port.Nacos.{Head}
use tcp_port.Redis.{RespResponse}
use tcp_port.App.Handler.Loop.{
  Shrinks, after_request-Shrinks, after_response-Shrinks, after_text-Shrinks, if-Shrinks,
}
use tcp_port.Zookeeper.{request, response}
use tcp_port.Base.Outcome.{Outcome, ok, fail, panic}
use tcp_port.Base.Reader.{Reading, done, failed, panicked}
use tcp_port.App.Handler.{
  Env, Session, after_response, check_cost, go_on, is_url, send, write_line, write_req_line,
}
use tcp_port.App.Handler.Readers.{
  read_remoting_command-Eats, read_resp_command-Eats, read_zk_message-Eats,
}
use tcp_port.App.Handler.Rounds.{
  drop_response, http_answer, http_exchange, http_round, http_text, redis_answer, redis_command,
  redis_round, redis_skips, redis_text, rocketmq_answer, rocketmq_exchange, rocketmq_kept,
  rocketmq_round, websocket_round, websocket_shown, with_response, zookeeper_answer,
  zookeeper_exchange, zookeeper_round,
}
use tcp_port.Base.{Bool, List, Option, false, length, not, true, ℕ, ◌++◌, ◌<◌}
use tcp_port.Base.Int.{ℤ}
use tcp_port.Base.Slice.{Bytes}
use tcp_port.Base.Text.{codes}
use tcp_port.Http.{read_http_message}
use tcp_port.Http.Ends.{read_http_message-Eats}
use tcp_port.Redis.{RespResponse, read_resp_command}
use tcp_port.Redis.Reply.{read_resp_response}
use tcp_port.Rocketmq.{RemotingCommand}
use tcp_port.Rocketmq.Format.{format_remoting_response}
use tcp_port.Rocketmq.Reader.{read_remoting_command}
use tcp_port.Websocket.Ends.{read_websocket_message-Eats}
use tcp_port.Websocket.Frame.{read_websocket_message}
use tcp_port.Zookeeper.{ZkMessage, read_zk_message}
use tcp_port.App.Handler.{run, unfinished}
use tcp_port.App.Handler.Loop.{run-ends}
use tcp_port.App.Handler.Rounds.{redis_handler, rocketmq_skips}
use tcp_port.Base.{◌≢◌}
use tcp_port.App.Handler.{Handled}
use tcp_port.App.Handler.Rounds.{compiled}
use tcp_port.Base.{Bool-cases, inl, inr, none, some, ◌==◌}
use tcp_port.App.Handler.BatchEnds.{
  mongo_round-Shrinks, mysql_handler-ends, nacos_round-Shrinks, read_mongo_message-Eats,
}
use tcp_port.App.Handler.Batches.{mongo_round, mysql_handler, nacos_round}
use tcp_port.Mongo.Reader.{read_mongo_message}
use tcp_port.Nacos.{NacosMessage, read_nacos_message}
use tcp_port.Nacos.Ends.{read_nacos_message-Eats}
use tcp_port.Base.{arith, ◌≡◌}
use tcp_port.Http.Ends.{read_http_message-ne-panicked}
use tcp_port.Mongo.Bson.{extract_bson_value, extract_bson_value-total}
use tcp_port.Mongo.Rounds.{Settles, bson_to_map-Settles}
use tcp_port.Mongo.Value.{bson_to_map}
use tcp_port.Nacos.{read_head}
use tcp_port.Nacos.Panics.{Gives, read_head-Gives}
use tcp_port.Redis.Ends.{read_resp_response-rounds}
use tcp_port.Redis.Reply.{read_replies}

module _ (e : Env) where
  module _ (fields : Bytes → List Bytes) (to_upper : Bytes → Bytes) (command : Bytes)
      (key_re : Option (Bytes → Bool)) where
    drop_response-Shrinks :
        (s : Session) (l : ℕ) (x : Reading RespResponse)
        → length s.requests < l
        → Shrinks l (drop_response fields to_upper e command key_re s x)
    unfolding Shrinks
    drop_response-Shrinks s l (done a r) h = h
    drop_response-Shrinks s l (failed err r) h = h
    drop_response-Shrinks s l panicked h = tt

    redis_round-Shrinks :
        (k : ℕ) (s : Session)
        → Shrinks (length s.requests) (redis_round fields to_upper e command key_re k s)
    unfolding redis_round Shrinks
    redis_round-Shrinks k s =
        let l = length s.requests in
        let answer = redis_answer fields to_upper e command key_re k in
        after_request-Shrinks (redis_command fields to_upper e command key_re k) s l
          (read_resp_command fields to_upper s.requests)
          (read_resp_command-Eats fields to_upper s.requests)
          (λ cmd s' h.
            let buf = redis_text fields to_upper e command key_re k cmd in
            let x = read_resp_response s'.responses in
            if-Shrinks (redis_skips fields to_upper e command key_re cmd) l
              (drop_response fields to_upper e command key_re s' x)
              (after_response buf (answer buf) s' x) (drop_response-Shrinks s' l x h)
              (after_response-Shrinks buf (answer buf) s' l x h
                (λ resp s'' h'. if-Shrinks (check_cost e k 0) l (go_on _) (go_on s'') h' h')))

  module _ (unmarshal : Bytes → RemotingCommand → Option RemotingCommand) (code : ℤ) where
    rocketmq_answer-Shrinks :
        (k l : ℕ) (buf : Bytes) (resp : Option RemotingCommand) (s : Session)
        → length s.requests < l
        → Shrinks l (rocketmq_answer unmarshal e code k buf resp s)
    unfolding Shrinks
    rocketmq_answer-Shrinks k l buf resp s h =
        let sent = λ (t : Bytes). go_on (send (with_response e k 1 buf t) s) in
        if-Shrinks (not (check_cost e k 0)) l (go_on s) _ h (
          if-Shrinks (is_url e) l (go_on (send buf s)) _ h
            (after_text-Shrinks sent l (format_remoting_response resp) (λ t. h)))

    rocketmq_kept-Shrinks :
        (k l : ℕ) (req : Option RemotingCommand) (s : Session) (x : Outcome Bool)
        → length s.requests < l
        → Shrinks l (rocketmq_kept unmarshal e code k req s x)
    unfolding Shrinks
    rocketmq_kept-Shrinks k l req s (ok true) h = h
    rocketmq_kept-Shrinks k l req s (ok false) h =
        after_text-Shrinks (rocketmq_exchange unmarshal e code k s) l _ (λ t.
          let buf = write_req_line e k ++ write_line t in
          after_response-Shrinks buf (rocketmq_answer unmarshal e code k buf) s l
            (read_remoting_command unmarshal s.responses) h (rocketmq_answer-Shrinks k l buf))
    rocketmq_kept-Shrinks k l req s (fail x) h = tt
    rocketmq_kept-Shrinks k l req s panic h = tt

    rocketmq_round-Shrinks :
        (k : ℕ) (s : Session) → Shrinks (length s.requests) (rocketmq_round unmarshal e code k s)
    unfolding rocketmq_round
    rocketmq_round-Shrinks k s =
        after_request-Shrinks _ s (length s.requests) (read_remoting_command unmarshal s.requests)
          (read_remoting_command-Eats unmarshal s.requests)
          (λ req s'.
            rocketmq_kept-Shrinks k (length s.requests) req s'
              (rocketmq_skips unmarshal e code req))

  module _ (trim_space to_lower : Bytes → Bytes) (scan_int : Bytes → Option ℤ) where
    http_round-Shrinks :
        (k : ℕ) (s : Session)
        → Shrinks (length s.requests) (http_round trim_space to_lower scan_int e k s)
    unfolding http_round Shrinks
    http_round-Shrinks k s =
        after_request-Shrinks (http_exchange trim_space to_lower scan_int e k) s (length s.requests)
          (read_http_message trim_space to_lower scan_int s.requests)
          (read_http_message-Eats trim_space to_lower scan_int s.requests)
          (λ req s' h.
            let buf = http_text trim_space to_lower scan_int e k req in
            after_response-Shrinks buf (http_answer trim_space to_lower scan_int e k buf) s'
              (length s.requests) (read_http_message trim_space to_lower scan_int s'.responses) h
              (λ resp s'' h'. h'))

  zookeeper_exchange-Shrinks :
      (k l : ℕ) (msg : ZkMessage) (s : Session)
      → length s.requests < l
      → Shrinks l (zookeeper_exchange e k msg s)
  unfolding Shrinks
  zookeeper_exchange-Shrinks k l (response resp) s h = h
  zookeeper_exchange-Shrinks k l (request req) s h =
      after_response-Shrinks _ (zookeeper_answer e k _) s l
        (read_zk_message (codes "S->C") s.responses) h
        (λ resp s' h'. if-Shrinks (check_cost e k 0) l (go_on _) (go_on s') h' h')

  zookeeper_round-Shrinks :
      (k : ℕ) (s : Session) → Shrinks (length s.requests) (zookeeper_round e k s)
  unfolding zookeeper_round
  zookeeper_round-Shrinks k s =
      after_request-Shrinks (zookeeper_exchange e k) s (length s.requests)
        (read_zk_message (codes "C->S") s.requests) (read_zk_message-Eats (codes "C->S") s.requests)
        (zookeeper_exchange-Shrinks k (length s.requests))

  websocket_round-Shrinks :
      (quote : Bytes → Bytes) (k : ℕ) (s : Session)
      → Shrinks (length s.requests) (websocket_round quote e k s)
  unfolding websocket_round Shrinks
  websocket_round-Shrinks quote k s =
      after_request-Shrinks (websocket_shown quote e k) s (length s.requests)
        (read_websocket_message quote (codes "C->S") s.requests)
        (read_websocket_message-Eats quote (codes "C->S") s.requests) (λ msg s' h. h)

  compiled-ends :
      (handle : Option (Bytes → Bool) → Handled) (re : Option (Bytes → Bool))
      → ((x : Option (Bytes → Bool)) → handle x ≢ unfinished)
      → compiled handle re ≢ unfinished
  compiled-ends handle none h = λ x. cc
  compiled-ends handle (some re) h = h (some re)

  redis_handler-ends :
      (fields : Bytes → List Bytes) (to_upper : Bytes → Bytes)
      (compile : Bytes → Option (Bytes → Bool)) (command key : Bytes) (s : Session)
      → redis_handler fields to_upper compile e command key s ≢ unfinished
  unfolding redis_handler
  redis_handler-ends fields to_upper compile command key s =
      let handle =
        λ (key_re : Option (Bytes → Bool)). run (redis_round fields to_upper e command key_re) s in
      let ends : (x : Option (Bytes → Bool)) → handle x ≢ unfinished = λ x.
        run-ends (redis_round fields to_upper e command x)
          (redis_round-Shrinks fields to_upper command x) s in
      elim (Bool-cases (length key == 0)) [
        | inl c ↦ rw c (ends none)
        | inr c ↦ rw c (compiled-ends handle (compile key) ends)
      ]

  -- The handlers of Redis, RocketMQ, HTTP, ZooKeeper, WebSocket, MongoDB, MySQL and Nacos come to an
  -- end, whatever the bytes of the two streams are, and whatever the filters, the clock and the
  -- texts are: the rounds of their loops are never used up. Nor are the rounds of the readers that
  -- they call: on any bytes `ReadHTTPMessage` does not panic, as it would when the rounds for its
  -- headers are used up, the loop over the headers of Nacos succeeds, the reader of a reply of Redis
  -- gives the same whatever comes when its rounds are used up, a document of MongoDB comes to a map,
  -- to nil, or to a panic of the program, and the search for its field comes to an answer.
  pub handlers-end :
      (fields : Bytes → List Bytes) (to_upper : Bytes → Bytes)
      (compile : Bytes → Option (Bytes → Bool)) (command key : Bytes)
      (unmarshal : Bytes → RemotingCommand → Option RemotingCommand) (code : ℤ)
      (trim_space to_lower : Bytes → Bytes) (scan_int : Bytes → Option ℤ)
      (quote to_valid : Bytes → Bytes) (format_time : ℤ → Bytes) (format_float : ℕ → Bytes)
      (order : List Bytes → List Bytes) (unescape : Bytes → Option Bytes) (to_int : Bytes → ℤ)
      (brief whole : NacosMessage → Bytes) (s : Session)
      → (redis_handler fields to_upper compile e command key s ≢ unfinished)
        × (run (rocketmq_round unmarshal e code) s ≢ unfinished)
        × (run (http_round trim_space to_lower scan_int e) s ≢ unfinished)
        × (run (zookeeper_round e) s ≢ unfinished)
        × (run (websocket_round quote e) s ≢ unfinished)
        × (run (mongo_round (read_mongo_message to_valid format_time format_float order) e code) s
            ≢ unfinished)
        × (mysql_handler to_upper trim_space fields e command key s ≢ unfinished)
        × (run
              (nacos_round
                (read_nacos_message trim_space to_lower unescape to_int scan_int)
                brief
                whole
                e)
              s
            ≢ unfinished)
        × ((r : Bytes) → read_http_message trim_space to_lower scan_int r ≢ panicked)
        × ((h : Head) (r : Bytes)
            → Gives (read_head trim_space to_lower unescape to_int scan_int (suc (length r)) h r))
        × ((out : Read RespResponse) (r : Bytes)
            → read_replies out (suc (length r)) r ≡ read_resp_response r)
        × ((t : Bytes) (spare : ℕ) → Settles (bson_to_map format_time t spare))
        × ((t field : Bytes) → (v : Bytes) × (extract_bson_value t field ≡ some v))
  unfolding redis_handler
  handlers-end fields to_upper compile command key unmarshal code trim_space to_lower scan_int quote
        to_valid format_time format_float order unescape to_int brief whole s =
      let read_mongo = read_mongo_message to_valid format_time format_float order in
      let read_nacos = read_nacos_message trim_space to_lower unescape to_int scan_int in
      (
        redis_handler-ends fields to_upper compile command key s,
        run-ends (rocketmq_round unmarshal e code) (rocketmq_round-Shrinks unmarshal code) s,
        run-ends (http_round trim_space to_lower scan_int e)
            (http_round-Shrinks trim_space to_lower scan_int) s,
        run-ends (zookeeper_round e) zookeeper_round-Shrinks s,
        run-ends (websocket_round quote e) (websocket_round-Shrinks quote) s,
        run-ends (mongo_round read_mongo e code)
            (λ k s'.
              mongo_round-Shrinks e read_mongo code k s'
                (read_mongo_message-Eats to_valid format_time format_float order (codes "C->S")))
            s,
        mysql_handler-ends e to_upper trim_space fields command key s,
        run-ends (nacos_round read_nacos brief whole e)
            (λ k s'.
              nacos_round-Shrinks e read_nacos brief whole k s' (
                read_nacos_message-Eats trim_space to_lower unescape to_int scan_int
                  (codes "C->S")))
            s,
        read_http_message-ne-panicked trim_space to_lower scan_int,
        (λ h r.
            read_head-Gives trim_space to_lower unescape to_int scan_int (suc (length r)) h r
              (omega arith)),
        (λ out r. read_resp_response-rounds out (suc (length r)) r (omega arith)),
        bson_to_map-Settles format_time,
        extract_bson_value-total,
      )
