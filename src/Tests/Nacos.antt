-- ===== src/Tests/Nacos.antt =====
-- Messages of Nacos at short streams.
use tcp_port.Redis.RoundTrip.{encode_line}
use tcp_port.Base.{[]}
use tcp_port.Base.Int.{pos}
use tcp_port.Base.Reader.{panicked}
use tcp_port.Base.{Option, [], none, some}
use tcp_port.Base.Int.{ℤ}
use tcp_port.Base.Slice.{Bytes}
use tcp_port.Base.Text.{codes}
use tcp_port.Nacos.{read_nacos_message}
use tcp_port.Nacos.Panics.{read_nacos_message-panic_iff}
use tcp_port.Base.{equal, refl, ◌^◌, ◌↔◌, ◌≡◌}
use tcp_port.Base.Reader.{find_line, read_string}
use tcp_port.Base.Text.{has_prefix, split_first, trim_line}
use tcp_port.Http.{http_methods, is_method}
use tcp_port.Nacos.{read_head}
use tcp_port.Nacos.Panics.{Oversized, read_nacos_message-panic_iff}

abbrev same : Bytes → Bytes
same s = s

abbrev no_escapes : Bytes → Option Bytes
no_escapes s = some s

abbrev same_number : Bytes → ℤ
same_number v = pos (2 ^ 49)

abbrev no_int : Bytes → Option ℤ
no_int s = none

abbrev huge : Bytes
huge = encode_line (codes "GET /") (encode_line (codes "content-length:1") (encode_line [] []))

read_nacos_message-panic_iff_example :
    (read_nacos_message same same no_escapes same_number no_int (codes "C->S") huge ≡ panicked)
    ↔ Oversized same same no_escapes same_number no_int (codes "C->S") huge
read_nacos_message-panic_iff_example =
    read_nacos_message-panic_iff same same no_escapes same_number no_int (codes "C->S") huge

-- The reader panics on this message.
huge-panicked :
    read_nacos_message same same no_escapes same_number no_int (codes "C->S") huge ≡ panicked
unfolding read_nacos_message read_head read_string find_line trim_line split_first is_method
    http_methods equal has_prefix
huge-panicked = refl
