-- ===== src/App/Handler/BatchEnds.antt =====
-- The rounds of the handlers of MongoDB, MySQL and Nacos (main.go) take a byte at least.
use tcp_port.Base.Reader.{Reading, done, failed, panicked, read_full}
use tcp_port.App.Handler.{go_on, run, unfinished}
use tcp_port.Mongo.Reader.{read_mongo_message, read_body}
use tcp_port.Mysql.Reader.{read_mysql_packet}
use tcp_port.Base.Leaves.{
  Eats, Eats-bind, bind-Frugal, if-Frugal, pure-Frugal, throw-Frugal, lift-Leaves, read_full-Eats,
  read_full-Leaves,
}
use tcp_port.App.Handler.{Env, Handled, Session}
use tcp_port.App.Handler.Batches.{
  after_greeting, after_replies, mongo_exchange, mongo_replies, mongo_round, mongo_skips,
  mysql_exchange, mysql_handler, mysql_replies, mysql_round, mysql_skips,
}
use tcp_port.App.Handler.Loop.{Shrinks, after_request-Shrinks, if-Shrinks, run-ends}
use tcp_port.Base.{List, arith, length, refl, suc, ℕ, ◌<◌, ◌≢◌}
use tcp_port.Base.Int.{ℤ}
use tcp_port.Base.Reader.{Read}
use tcp_port.Base.Slice.{Bytes}
use tcp_port.Base.Text.{codes}
use tcp_port.Mongo.{MongoMessage}
use tcp_port.Mysql.Message.{MysqlMessage}
use tcp_port.Mysql.Reader.{read_mysql_message}
use tcp_port.Tcp.Stream.{read}
use tcp_port.Mysql.Reader.{parse_message}
use tcp_port.App.Handler.{check_cost}
use tcp_port.App.Handler.Batches.{nacos_answer, nacos_exchange, nacos_round, nacos_text}
use tcp_port.App.Handler.Loop.{after_response-Shrinks}
use tcp_port.Nacos.{NacosMessage}

ruleset frugal = (bind-Frugal, if-Frugal, pure-Frugal, throw-Frugal, lift-Leaves, read_full-Leaves)

pub read_mongo_message-Eats :
    (to_valid : Bytes → Bytes) (format_time : ℤ → Bytes) (format_float : ℕ → Bytes)
    (order : List Bytes → List Bytes) (direction r : Bytes)
    → Eats (length r) (read_mongo_message to_valid format_time format_float order direction r)
unfolding read_mongo_message read_body
read_mongo_message-Eats to_valid format_time format_float order direction r =
    Eats-bind (length r) (read_full 16 r) (read_full 16) _ r refl
      (read_full-Eats 16 r (omega arith)) (λ l. search frugal)

read_mysql_packet-Eats : (r : Bytes) → Eats (length r) (read_mysql_packet r)
unfolding read_mysql_packet
read_mysql_packet-Eats r =
    Eats-bind (length r) (read_full 4 r) (read_full 4) _ r refl (read_full-Eats 4 r (omega arith))
      (λ l. search frugal)

pub read_mysql_message-Eats :
    (direction r : Bytes) → Eats (length r) (read_mysql_message direction r)
unfolding read_mysql_message
read_mysql_message-Eats direction r =
    Eats-bind (length r) (read_mysql_packet r) read_mysql_packet _ r refl (read_mysql_packet-Eats r)
      (λ packet. lift-Leaves (parse_message (record packet { direction = direction })))

after_replies-Shrinks :
    (s : Session) (l : ℕ) (x : Reading Bytes)
    → length s.requests < l
    → Shrinks l (after_replies s x)
unfolding Shrinks
after_replies-Shrinks s l (done buf r) h = h
after_replies-Shrinks s l (failed e r) h = tt
after_replies-Shrinks s l panicked h = tt

module _ (e : Env) where
  pub mongo_round-Shrinks :
      (read : Bytes → Read MongoMessage) (op_code : ℤ) (k : ℕ) (s : Session)
      → ((r : Bytes) → Eats (length r) (read (codes "C->S") r))
      → Shrinks (length s.requests) (mongo_round read e op_code k s)
  unfolding mongo_round mongo_replies Shrinks
  mongo_round-Shrinks read op_code k s eats =
      let l = length s.requests in
      after_request-Shrinks (mongo_exchange read e op_code k) s l (read (codes "C->S") s.requests)
        (eats s.requests)
        (λ req s' h.
          if-Shrinks (mongo_skips read e op_code req) l (go_on s')
            (mongo_replies read e op_code k req s') h (after_replies-Shrinks s' l _ h))

  mysql_round-Shrinks :
      (to_upper trim_space : Bytes → Bytes) (fields : Bytes → List Bytes) (command query : Bytes)
      (k : ℕ) (s : Session)
      → Shrinks (length s.requests) (mysql_round to_upper trim_space fields e command query k s)
  unfolding mysql_round mysql_replies Shrinks
  mysql_round-Shrinks to_upper trim_space fields command query k s =
      let l = length s.requests in
      after_request-Shrinks (mysql_exchange to_upper trim_space fields e command query k) s l
        (read_mysql_message (codes "C->S") s.requests)
        (read_mysql_message-Eats (codes "C->S") s.requests)
        (λ cmd s' h.
          if-Shrinks (mysql_skips to_upper trim_space fields e command query cmd) l (go_on s')
            (mysql_replies to_upper trim_space fields e command query k cmd s') h
            (after_replies-Shrinks s' l _ h))

  pub nacos_round-Shrinks :
      (read : Bytes → Read NacosMessage) (brief whole : NacosMessage → Bytes) (k : ℕ) (s : Session)
      → ((r : Bytes) → Eats (length r) (read (codes "C->S") r))
      → Shrinks (length s.requests) (nacos_round read brief whole e k s)
  unfolding nacos_round Shrinks
  nacos_round-Shrinks read brief whole k s eats =
      let l = length s.requests in
      after_request-Shrinks (nacos_exchange read brief whole e k) s l
        (read (codes "C->S") s.requests) (eats s.requests)
        (λ req s' h.
          let buf = nacos_text read brief whole e k req in
          after_response-Shrinks buf (nacos_answer read brief whole e k buf) s' l
            (read (codes "S->C") s'.responses) h
            (λ resp s'' h'. if-Shrinks (check_cost e k 0) l (go_on _) (go_on s'') h' h'))

  after_greeting-ends :
      (to_upper trim_space : Bytes → Bytes) (fields : Bytes → List Bytes) (command query : Bytes)
      (next : Session → Handled) (s : Session) (x : Reading MysqlMessage)
      → ((s' : Session) → next s' ≢ unfinished)
      → after_greeting to_upper trim_space fields e command query next s x ≢ unfinished
  after_greeting-ends to_upper trim_space fields command query next s (done a r) h = h _
  after_greeting-ends to_upper trim_space fields command query next s (failed x r) h = h _
  after_greeting-ends to_upper trim_space fields command query next s panicked h = λ x. cc

  pub mysql_handler-ends :
      (to_upper trim_space : Bytes → Bytes) (fields : Bytes → List Bytes) (command query : Bytes)
      (s : Session)
      → mysql_handler to_upper trim_space fields e command query s ≢ unfinished
  unfolding mysql_handler
  mysql_handler-ends to_upper trim_space fields command query s =
      let round = λ (k : ℕ). mysql_round to_upper trim_space fields e command query (suc k) in
      after_greeting-ends to_upper trim_space fields command query (run round) s
        (read_mysql_message (codes "S->C") s.responses)
        (run-ends round (λ k. mysql_round-Shrinks to_upper trim_space fields command query (suc k)))
