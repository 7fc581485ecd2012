-- ===== src/Tests/Handlers.antt =====
-- Handlers at short streams.
use tcp_port.Base.Reader.{Read, panicked}
use tcp_port.Base.{suc}
use tcp_port.Nacos.{Head}
use tcp_port.App.Handler.{run}
use tcp_port.App.Handler.Exchanges.{texts_of}
use tcp_port.Http.{new_message, request}
use tcp_port.App.Handler.{finished, unfinished, Session, Env}
use tcp_port.Base.Reader.{done}
use tcp_port.App.Handler.{check_cost, rounds, write_line, write_req_line}
use tcp_port.App.Handler.Ends.{handlers-end}
use tcp_port.App.Handler.Exchanges.{Exchange, redis_handler-exchanges, session_of}
use tcp_port.App.Handler.Faults.{http_round-sent_twice, rocketmq_round-mispaired}
use tcp_port.App.Handler.Rounds.{
  http_round, http_text, redis_handler, rocketmq_round, websocket_round, with_response,
  zookeeper_round,
}
use tcp_port.Base.{
  Bool, List, Option, [], arith, equal, none, refl, some, true, ℕ, ◌++◌, ◌∷◌, ◌≡◌, ◌≢◌,
}
use tcp_port.Base.Int.{pos, ℤ}
use tcp_port.Base.Outcome.{eof}
use tcp_port.Base.Reader.{find_line, read_string}
use tcp_port.Base.Slice.{Bytes}
use tcp_port.Base.Text.{codes, split_first, trim_line}
use tcp_port.Http.{
  HttpMessage, http_methods, is_method, parse_first_line, read_headers, read_http_message,
}
use tcp_port.Redis.RoundTrip.{encode_line}
use tcp_port.Rocketmq.{RemotingCommand, new_command, set_preview}
use tcp_port.Rocketmq.Format.{format_command, format_response}
use tcp_port.Rocketmq.Frames.{encode_remoting, read_remoting_command-frame}
use tcp_port.Rocketmq.Reader.{read_remoting_command}
use tcp_port.Tcp.Assembler.Dict.{lookup}
use tcp_port.App.Handler.Batches.{mongo_round, mysql_handler, nacos_round}
use tcp_port.Mongo.Reader.{read_mongo_message}
use tcp_port.Nacos.{NacosMessage, read_nacos_message}
use tcp_port.Base.{length}
use tcp_port.Mongo.Bson.{extract_bson_value}
use tcp_port.Mongo.Rounds.{Settles}
use tcp_port.Mongo.Value.{bson_to_map}
use tcp_port.Nacos.{read_head}
use tcp_port.Nacos.Panics.{Gives}
use tcp_port.Redis.{RespResponse}
use tcp_port.Redis.Reply.{read_replies, read_resp_response}

abbrev clock : Env
clock = record {
  src = codes "a:1";
  dst = codes "b:2";
  level = codes "all";
  cost = [];
  stamp = λ k. codes "t";
  elapsed = λ k i. pos 7;
  trim_space = λ s. s;
  parse_int = λ s. none;
}

abbrev one_word : Bytes → List Bytes
one_word s = s ∷ []

abbrev unchanged : Bytes → Bytes
unchanged s = s

abbrev any_key : Bytes → Option (Bytes → Bool)
any_key s = some (λ k. true)

abbrev no_int : Bytes → Option ℤ
no_int s = none

-- The code of a command is the first byte of its header.
abbrev unmarshal_code : Bytes → RemotingCommand → Option RemotingCommand
unmarshal_code [] cmd = some cmd
unmarshal_code (b ∷ s) cmd = some (record cmd { code = pos b })

abbrev silence : Session
silence = record { requests = codes "GET / HTTP/1.1"; responses = []; sent = [] }

abbrev no_escapes : Bytes → Option Bytes
no_escapes s = some s

abbrev zero_int : Bytes → ℤ
zero_int s = pos 0

abbrev no_text : NacosMessage → Bytes
no_text msg = []

abbrev fixed_time : ℤ → Bytes
fixed_time n = []

abbrev fixed_float : ℕ → Bytes
fixed_float n = []

abbrev as_is : List Bytes → List Bytes
as_is ss = ss

handlers-end_example :
    (redis_handler one_word unchanged any_key clock [] (codes "k") silence ≢ unfinished)
    × (run (rocketmq_round unmarshal_code clock (pos 0)) silence ≢ unfinished)
    × (run (http_round unchanged unchanged no_int clock) silence ≢ unfinished)
    × (run (zookeeper_round clock) silence ≢ unfinished)
    × (run (websocket_round unchanged clock) silence ≢ unfinished)
    × (run
          (mongo_round (read_mongo_message unchanged fixed_time fixed_float as_is) clock (pos 0))
          silence
        ≢ unfinished)
    × (mysql_handler unchanged unchanged one_word clock [] (codes "k") silence ≢ unfinished)
    × (run
          (nacos_round
            (read_nacos_message unchanged unchanged no_escapes zero_int no_int)
            no_text
            no_text
            clock)
          silence
        ≢ unfinished)
    × ((r : Bytes) → read_http_message unchanged unchanged no_int r ≢ panicked)
    × ((h : Head) (r : Bytes)
        → Gives (read_head unchanged unchanged no_escapes zero_int no_int (suc (length r)) h r))
    × ((out : Read RespResponse) (r : Bytes)
        → read_replies out (suc (length r)) r ≡ read_resp_response r)
    × ((t : Bytes) (spare : ℕ) → Settles (bson_to_map fixed_time t spare))
    × ((t field : Bytes) → (v : Bytes) × (extract_bson_value t field ≡ some v))
handlers-end_example =
    handlers-end clock one_word unchanged any_key [] (codes "k") unmarshal_code (pos 0) unchanged
      unchanged no_int unchanged unchanged fixed_time fixed_float as_is no_escapes zero_int no_text
      no_text silence

abbrev exchanges : List Exchange
exchanges = (codes "GET" ∷ codes "k" ∷ [], codes "OK") ∷ (codes "PING" ∷ [], codes "PONG") ∷ []

redis_handler-exchanges_example :
    redis_handler one_word unchanged any_key clock [] [] (session_of exchanges [])
    ≡ finished (record {
      requests = [];
      responses = [];
      sent = texts_of one_word unchanged clock 0 exchanges;
    })
unfolding check_cost
redis_handler-exchanges_example =
    redis_handler-exchanges one_word unchanged clock (λ k. refl) any_key exchanges (omega arith)

abbrev get_root : Bytes
get_root = encode_line (codes "GET / HTTP/1.1") (encode_line [] [])

abbrev root : HttpMessage
root = record (new_message request (codes "GET / HTTP/1.1")) {
  method = codes "GET";
  path = codes "/";
}

http_round-sent_twice_example :
    run
      (http_round unchanged unchanged no_int clock)
      (record { requests = get_root; responses = []; sent = [] })
    ≡ finished (record {
      requests = [];
      responses = [];
      sent =
          http_text unchanged unchanged no_int clock 0 root
          ∷ http_text unchanged unchanged no_int clock 0 root
          ∷ [];
    })
unfolding read_http_message read_headers parse_first_line split_first read_string find_line
    trim_line is_method http_methods equal lookup
http_round-sent_twice_example =
    http_round-sent_twice unchanged unchanged no_int clock
      (record { requests = get_root; responses = []; sent = [] }) root eof [] [] refl refl

-- A frame without a body, its code in the header.
abbrev frame : ℕ → Bytes → Bytes
frame code rest = encode_remoting (code ∷ 1 ∷ []) [] ++ rest

abbrev command_of : ℕ → RemotingCommand
command_of code = record (new_command 10 6 (code ∷ 1 ∷ []) []) { code = pos code }

frame-read :
    (code : ℕ) (rest : Bytes)
    → read_remoting_command unmarshal_code (frame code rest) ≡ done (some (command_of code)) rest
unfolding set_preview
frame-read code rest =
    read_remoting_command-frame unmarshal_code (code ∷ 1 ∷ []) [] rest (omega arith) (omega arith)

rocketmq_round-mispaired_example :
    run
      (rocketmq_round unmarshal_code clock (pos 10))
      (record { requests = frame 11 (frame 10 []); responses = frame 5 []; sent = [] })
    ≡ rounds (rocketmq_round unmarshal_code clock (pos 10)) 19 2 (record {
      requests = [];
      responses = [];
      sent =
          with_response clock 1 1
            (write_req_line clock 1 ++ write_line (format_command (command_of 10)))
            (format_response (command_of 5))
          ∷ [];
    })
unfolding new_command check_cost equal
rocketmq_round-mispaired_example =
    rocketmq_round-mispaired unmarshal_code clock (pos 10)
      (record { requests = frame 11 (frame 10 []); responses = frame 5 []; sent = [] }) 19
      (command_of 11) (command_of 10) (command_of 5) (frame 10 []) [] [] refl refl
      (frame-read 11 (frame 10 [])) refl (frame-read 10 []) refl (frame-read 5 []) refl refl
