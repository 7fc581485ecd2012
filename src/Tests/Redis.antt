-- ===== src/Tests/Redis.antt =====
-- Redis commands and replies, read from their bytes.
use tcp_port.Base.Outcome.{eof}
use tcp_port.Base.Reader.{failed}
use tcp_port.Redis.{RespResponse}
use tcp_port.Base.{List, [], arith, ◌∷◌, ◌≡◌}
use tcp_port.Base.Reader.{done}
use tcp_port.Base.Slice.{Bytes}
use tcp_port.Base.Text.{codes, dec, join}
use tcp_port.Redis.{line_mark, read_resp_command}
use tcp_port.Redis.Ends.{read_resp_response-rounds}
use tcp_port.Redis.Reply.{read_replies, read_resp_response}
use tcp_port.Redis.RoundTrip.{encode_args, encode_line, lines_of, read_resp_command-encode}
use tcp_port.Base.Reader.{Read}

abbrev one_field : Bytes → List Bytes
one_field s = s ∷ []

abbrev same : Bytes → Bytes
same s = s

abbrev get_key : List Bytes
get_key = codes "GET" ∷ codes "key" ∷ []

read_resp_command-encode_example :
    read_resp_command one_field same (encode_line (b'*' ∷ dec 2) (encode_args get_key (codes "+")))
    ≡ done
        (record {
          raw = join line_mark ((b'*' ∷ dec 2) ∷ lines_of get_key);
          command = codes "GET";
          args = get_key;
          arg_count = 2;
        })
        (codes "+")
read_resp_command-encode_example =
    read_resp_command-encode one_field same get_key (codes "+") (omega arith)
      (omega arith, (omega arith, tt))

abbrev nested : Bytes
nested = encode_line (codes "*1") (encode_line (codes "*1") (encode_line (codes ":7") []))

abbrev gives_up : Read RespResponse
gives_up r = failed eof r

read_resp_response-rounds_example : read_replies gives_up 100 nested ≡ read_resp_response nested
read_resp_response-rounds_example = read_resp_response-rounds gives_up 100 nested (omega arith)
