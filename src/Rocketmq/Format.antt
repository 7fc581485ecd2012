-- ===== src/Rocketmq/Format.antt =====
-- rocketmqport/printer.go. The commands are pointers: a nil one panics.
use tcp_port.Rocketmq.{RemotingCommand, request_code_name}
use tcp_port.Base.{
  Bool, List, Option, [], equal, if◌then◌else◌, length, none, some, ◌++◌, ◌||◌, ◌∷◌,
}
use tcp_port.Base.Outcome.{Outcome, ok, panic}
use tcp_port.Base.Slice.{Bytes}
use tcp_port.Base.Text.{codes, dec, dec_ℤ}

-- A line with a label, unless its text is empty.
abbrev optional_line : Bytes → Bytes → Bytes
optional_line label [] = []
optional_line label (c ∷ cs) = label ++ ((c ∷ cs) ++ (10 ∷ []))

abbrev body_line : RemotingCommand → Bytes
body_line cmd = elim cmd.body_preview [
  | [] ↦ []
  | c ∷ cs ↦ codes "  Body: " ++ (dec (length cmd.body) ++ (codes " bytes" ++ (10 ∷ [])))
]

abbrev is_shown_field : Bytes → Bool
is_shown_field k =
    equal k (codes "topic")
    || equal k (codes "brokerName")
    || equal k (codes "consumerGroup")
    || equal k (codes "group")

-- The extension fields, in the order in which the map is gone through.
unfoldable pub show_fields : List (Bytes × Bytes) → Bytes
show_fields [] = []
show_fields ((k, v) ∷ m) =
    (if is_shown_field k then codes "  " ++ (k ++ (codes ": " ++ (v ++ (10 ∷ [])))) else [])
    ++ show_fields m

unfoldable pub format_command : RemotingCommand → Bytes
format_command cmd =
    codes "  Code: "
    ++ (dec_ℤ cmd.code
        ++ (codes " ("
            ++ (request_code_name cmd.code
                ++ (codes ")"
                    ++ (10
                        ∷ (optional_line (codes "  Language: ") cmd.language
                            ++ (codes "  Version: "
                                ++ (dec_ℤ cmd.version
                                    ++ (codes "  Opaque: "
                                        ++ (dec_ℤ cmd.opaque_id
                                            ++ (codes "  Flag: "
                                                ++ (dec_ℤ cmd.flag
                                                    ++ (10
                                                        ∷ (optional_line (codes "  Remark: ")
                                                            cmd.remark
                                                            ++ (show_fields cmd.ext_fields
                                                            ++ body_line cmd)))))))))))))))

unfoldable pub format_response : RemotingCommand → Bytes
format_response cmd =
    codes "  Response: "
    ++ (dec_ℤ cmd.code
        ++ (codes " ("
            ++ (request_code_name cmd.code
                ++ (codes ")"
                    ++ (10 ∷ (optional_line (codes "  Remark: ") cmd.remark ++ body_line cmd))))))

abbrev of_pointer : (RemotingCommand → Bytes) → Option RemotingCommand → Outcome Bytes
of_pointer show none = panic
of_pointer show (some cmd) = ok (show cmd)

-- `FormatRemotingCommand`
unfoldable pub format_remoting_command : Option RemotingCommand → Outcome Bytes
unfolding format_command
format_remoting_command = of_pointer format_command

-- `FormatRemotingURL`
unfoldable pub format_remoting_url : Option RemotingCommand → Outcome Bytes
format_remoting_url = of_pointer (λ cmd. request_code_name cmd.code ++ (10 ∷ []))

-- `FormatRemotingResponse`
unfoldable pub format_remoting_response : Option RemotingCommand → Outcome Bytes
unfolding format_response
format_remoting_response = of_pointer format_response
