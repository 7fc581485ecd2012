-- ===== src/App/Handler/Batches.antt =====
-- main.go: the handlers of MongoDB and MySQL, which read several responses to a request, and that of
-- Nacos.
use tcp_port.Base.Text.{contains}
use tcp_port.Base.Reader.{Read, Reading, done, failed, panicked}
use tcp_port.App.Handler.{Env, Session, Turn, go_on, crash, Handled, crashed}
use tcp_port.Base.Int.{ℤ, pos, negsuc}
use tcp_port.Base.{suc, zero}
use tcp_port.App.Handler.{
  after_request, check_cost, is_url, run, send, write_line, write_req_line, write_resp_line,
}
use tcp_port.App.Handler.Rounds.{text_for}
use tcp_port.Base.{
  Bool, List, [], equal, false, if◌then◌else◌, length, not, ℕ, ◌%◌, ◌&&◌, ◌*◌, ◌++◌, ◌+◌, ◌-◌, ◌==◌,
  ◌^◌, ◌||◌,
}
use tcp_port.Base.Int.{eq_ℤ, to_int32}
use tcp_port.Base.Slice.{Bytes}
use tcp_port.Base.Text.{codes}
use tcp_port.Mongo.{MongoMessage}
use tcp_port.Mongo.Format.{format_mongo_message, format_mongo_response, format_mongo_url}
use tcp_port.Mysql.Format.{format_mysql_message, format_mysql_url}
use tcp_port.Mysql.Message.{MysqlMessage}
use tcp_port.Mysql.Reader.{read_mysql_message}
use tcp_port.Tcp.Stream.{read}
use tcp_port.Tcp.Wildcard.{wildcard_match}
use tcp_port.App.Handler.{after_response}
use tcp_port.App.Handler.Rounds.{with_response}
use tcp_port.Nacos.{NacosMessage}

-- A response goes to the buffer, and the last one ends the loop, as an error does.
abbrev pub after_reply :
    {A : Type 0}
    → (A → Bytes)
    → (A → Bool)
    → (Bytes → Read Bytes)
    → Bytes
    → Reading A
    → Reading Bytes
after_reply show last next buf (done a r) =
    if last a then done (buf ++ show a) r else next (buf ++ show a) r
after_reply show last next buf (failed e r) = done buf r
after_reply show last next buf panicked = panicked

-- The loop over the responses: at most `n`, from call `i` of the clock on.
unfoldable pub replies :
    {A : Type 0} → Read A → (ℕ → A → Bytes) → (A → Bool) → ℕ → ℕ → Bytes → Read Bytes
replies read show last zero i buf r = done buf r
replies read show last (suc n) i buf r =
    after_reply (show i) last (replies read show last n (suc i)) buf (read r)

-- The buffer with the responses is sent.
abbrev pub after_replies : Session → Reading Bytes → Turn
after_replies s (done buf r) = go_on (send buf (record s { responses = r }))
after_replies s (failed e r) = crash
after_replies s panicked = crash

-- `int32(n)` of an `int`.
abbrev pub int32_of : ℤ → ℤ
int32_of (pos n) = to_int32 (n % 2 ^ 32)
int32_of (negsuc n) = to_int32 (2 ^ 32 - 1 - n % 2 ^ 32)

module _ (read : Bytes → Read MongoMessage) (e : Env) (op_code : ℤ) where
  abbrev pub mongo_skips : MongoMessage → Bool
  mongo_skips req = not (eq_ℤ op_code (pos 0)) && not (eq_ℤ req.header.op_code (int32_of op_code))

  abbrev pub mongo_text : ℕ → MongoMessage → Bytes
  mongo_text k req =
      write_req_line e k ++ text_for e (format_mongo_url req) (format_mongo_message req)

  abbrev pub mongo_reply : ℕ → ℕ → MongoMessage → Bytes
  mongo_reply k i resp =
      if is_url e then [] else write_resp_line e k i ++ write_line (format_mongo_response resp)

  unfoldable pub mongo_replies : ℕ → MongoMessage → Session → Turn
  mongo_replies k req s = after_replies s (
      replies (read (codes "S->C")) (mongo_reply k) (λ resp. false) 5 0 (mongo_text k req)
        s.responses)

  abbrev pub mongo_exchange : ℕ → MongoMessage → Session → Turn
  mongo_exchange k req s = if mongo_skips req then go_on s else mongo_replies k req s

  -- A round of `mongoHandler.Handle`, with `ReadMongoMessage` as `read`.
  unfoldable pub mongo_round : ℕ → Session → Turn
  mongo_round k s = after_request (mongo_exchange k) s (read (codes "C->S") s.requests)

module _ (to_upper trim_space : Bytes → Bytes) (fields : Bytes → List Bytes) (e : Env)
    (command query : Bytes) where
  abbrev pub mysql_skips : MysqlMessage → Bool
  mysql_skips cmd =
      (not (length command == 0)
        && not (wildcard_match (to_upper cmd.command_name) (to_upper command)))
      || (not (length query == 0) && not (contains cmd.query query))

  abbrev pub mysql_text : ℕ → MysqlMessage → Bytes
  mysql_text k cmd =
      write_req_line e k
      ++ text_for e (format_mysql_url trim_space fields cmd)
          (format_mysql_message trim_space fields cmd)

  -- The clock is read for `checkCost` and for the line.
  abbrev pub mysql_reply : ℕ → ℕ → MysqlMessage → Bytes
  mysql_reply k i resp =
      if not (is_url e) && check_cost e k (2 * i)
      then write_resp_line e k (2 * i + 1)
        ++ write_line (format_mysql_message trim_space fields resp)
      else []

  abbrev pub is_last : MysqlMessage → Bool
  is_last resp =
      equal resp.kind (codes "ok")
      || (equal resp.kind (codes "eof") || equal resp.kind (codes "error"))

  unfoldable pub mysql_replies : ℕ → MysqlMessage → Session → Turn
  mysql_replies k cmd s = after_replies s (
      replies (read_mysql_message (codes "S->C")) (mysql_reply k) is_last 10 0 (mysql_text k cmd)
        s.responses)

  abbrev pub mysql_exchange : ℕ → MysqlMessage → Session → Turn
  mysql_exchange k cmd s = if mysql_skips cmd then go_on s else mysql_replies k cmd s

  -- A round of the loop of `mysqlHandler.Handle`.
  unfoldable pub mysql_round : ℕ → Session → Turn
  mysql_round k s =
      after_request (mysql_exchange k) s (read_mysql_message (codes "C->S") s.requests)

  abbrev pub greeting : MysqlMessage → Bytes
  greeting msg =
      if is_url e
      then write_resp_line e 0 0 ++ write_line (format_mysql_url trim_space fields msg)
      else if equal msg.kind (codes "handshake")
      then write_resp_line e 0 0 ++ write_line (format_mysql_message trim_space fields msg)
      else []

  -- The handshake, ahead of the loop `next`.
  abbrev pub after_greeting : (Session → Handled) → Session → Reading MysqlMessage → Handled
  after_greeting next s (done msg r) = next (send (greeting msg) (record s { responses = r }))
  after_greeting next s (failed err r) = next (record s { responses = r })
  after_greeting next s panicked = crashed

  -- `mysqlHandler.Handle`
  unfoldable pub mysql_handler : Session → Handled
  mysql_handler s =
      after_greeting (run (λ k. mysql_round (suc k))) s
        (read_mysql_message (codes "S->C") s.responses)

module _ (read : Bytes → Read NacosMessage) (brief whole : NacosMessage → Bytes) (e : Env) where
  abbrev pub nacos_text : ℕ → NacosMessage → Bytes
  nacos_text k req = write_req_line e k ++ text_for e (brief req) (whole req)

  abbrev pub nacos_answer : ℕ → Bytes → NacosMessage → Session → Turn
  nacos_answer k buf resp s =
      if check_cost e k 0
      then go_on (send (if is_url e then buf else with_response e k 1 buf (whole resp)) s)
      else go_on s

  abbrev pub nacos_exchange : ℕ → NacosMessage → Session → Turn
  nacos_exchange k req s =
      after_response (nacos_text k req) (nacos_answer k (nacos_text k req)) s
        (read (codes "S->C") s.responses)

  -- A round of `nacosHandler.Handle`, with `ReadNacosMessage` as `read`, `FormatNacosURL` as `brief`
  -- and `FormatNacosMessage` as `whole`.
  unfoldable pub nacos_round : ℕ → Session → Turn
  nacos_round k s = after_request (nacos_exchange k) s (read (codes "C->S") s.requests)
