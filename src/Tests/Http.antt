-- ===== src/Tests/Http.antt =====
-- HTTP messages, read from their bytes.
use tcp_port.Tcp.Assembler.Dict.{insert}
use tcp_port.Http.RoundTrip.{encode_headers}
use tcp_port.Redis.RoundTrip.{encode_line}
use tcp_port.Http.{request}
use tcp_port.Base.{Option, [], arith, equal, none, refl, ◌∷◌, ◌≡◌, ◌≢◌}
use tcp_port.Base.Int.{pos, ℤ}
use tcp_port.Base.Reader.{done, panicked}
use tcp_port.Base.Slice.{Bytes}
use tcp_port.Base.Text.{codes, split_first}
use tcp_port.Http.{http_methods, is_method, read_http_message}
use tcp_port.Http.Ends.{read_http_message-ne-panicked}
use tcp_port.Http.RoundTrip.{fields_of, read_http_message-encode}
use tcp_port.Tcp.Assembler.Dict.{lookup}

abbrev as_is : Bytes → Bytes
as_is s = s

abbrev no_number : Bytes → Option ℤ
no_number s = none

abbrev get_line : Bytes
get_line = codes "GET /a HTTP/1.1"

read_http_message-encode_example :
    read_http_message as_is as_is no_number
      (encode_line get_line (encode_headers (codes "host:b" ∷ []) (codes "body")))
    ≡ done
        (record {
          kind = request;
          raw_line = get_line;
          method = codes "GET";
          path = codes "/a";
          status_code = pos 0;
          status_text = [];
          headers = (codes "host", codes "b") ∷ [];
          raw_headers = codes "host:b" ∷ [];
          body_size = pos 0;
        })
        (codes "body")
unfolding fields_of split_first insert is_method http_methods equal lookup
read_http_message-encode_example =
    read_http_message-encode as_is as_is no_number (codes "GET") (codes "/a") (codes "HTTP/1.1")
      (codes "body") (codes "host:b" ∷ []) refl (omega arith) (omega arith) (omega arith)
      (omega arith)

read_http_message-ne-panicked_example :
    read_http_message as_is as_is no_number (codes "GET / HTTP/1.1") ≢ panicked
read_http_message-ne-panicked_example =
    read_http_message-ne-panicked as_is as_is no_number (codes "GET / HTTP/1.1")
