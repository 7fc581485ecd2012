-- ===== src/Mongo/Format.antt =====
-- mongoport/printer.go.
use tcp_port.Base.{List, [], if◌then◌else◌, length, ℕ, ◌%◌, ◌++◌, ◌/◌, ◌==◌, ◌∷◌}
use tcp_port.Base.Slice.{Bytes}
use tcp_port.Base.Text.{codes, dec_ℤ, join}
use tcp_port.Mongo.{MongoMessage}

-- A line `name: text`, if there is a text.
abbrev line_of : Bytes → Bytes → Bytes
line_of name [] = []
line_of name (c ∷ cs) = codes "  " ++ (name ++ (codes ": " ++ ((c ∷ cs) ++ (10 ∷ []))))

abbrev flag : ℕ → ℕ → Bytes → List Bytes
flag bits bit name = if bits / bit % 2 == 1 then name ∷ [] else []

unfoldable pub flags_of : ℕ → List Bytes
flags_of bits =
    flag bits 1 (codes "checksumPresent")
    ++ (flag bits 2 (codes "moreToCome") ++ flag bits 65536 (codes "exhaustAllowed"))

abbrev ids_line : MongoMessage → Bytes
ids_line msg =
    codes "  RequestID: "
    ++ (dec_ℤ msg.header.request_id
        ++ (codes "  ResponseTo: " ++ (dec_ℤ msg.header.response_to ++ (10 ∷ []))))

-- `FormatMongoMessage`
unfoldable pub format_mongo_message : MongoMessage → Bytes
format_mongo_message msg =
    codes "  "
    ++ (msg.summary
        ++ (10
            ∷ (line_of (codes "BSON") msg.bson_body
                ++ ((if length msg.command == 0
                      then line_of (codes "Collection") msg.collection
                      else [])
                    ++ (line_of (codes "Collection") msg.full_collection_name
                        ++ (line_of (codes "Command") msg.command
                            ++ (line_of (codes "Flags") (join (codes ", ") (flags_of msg.flag_bits))
                                ++ ids_line msg)))))))

-- `FormatMongoResponse`
unfoldable pub format_mongo_response : MongoMessage → Bytes
format_mongo_response msg =
    codes "  "
    ++ (msg.summary
        ++ (10
            ∷ (line_of (codes "BSON") msg.bson_body
                ++ (line_of (codes "Command") msg.command ++ ids_line msg))))

-- `FormatMongoURL`
abbrev pub format_mongo_url : MongoMessage → Bytes
format_mongo_url msg = msg.summary ++ (10 ∷ [])
