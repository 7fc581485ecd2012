-- ===== src/Nacos/Format.antt =====
-- nacosport/printer.go. `pad` stands for the verb `%-14s`, `unmarshal` for `json.Unmarshal` into a map,
-- with its values as `%v` prints them, and `order` for the order in which `range` goes through the
-- lines of a map.
use tcp_port.Base.Int.{pos}
use tcp_port.Tcp.Assembler.Dict.{lookup}
use tcp_port.Base.{
  Bool, List, Option, [], equal, false, if◌then◌else◌, length, none, not, some, true, ℕ, ◌&&◌, ◌++◌,
  ◌==◌, ◌∷◌,
}
use tcp_port.Base.Int.{leb_ℤ}
use tcp_port.Base.Slice.{Bytes}
use tcp_port.Base.Text.{codes, dec_ℤ, join, shorten}
use tcp_port.Nacos.{NacosMessage}

abbrev key_fields : List Bytes
key_fields =
    codes "serviceName"
    ∷ codes "groupName"
    ∷ codes "dataId"
    ∷ codes "ip"
    ∷ codes "port"
    ∷ codes "weight"
    ∷ codes "healthy"
    ∷ codes "enabled"
    ∷ codes "ephemeral"
    ∷ codes "namespaceId"
    ∷ codes "clusterName"
    ∷ codes "tenant"
    ∷ codes "username"
    ∷ []

unfoldable pub concat : List Bytes → Bytes
concat [] = []
concat (s ∷ ss) = s ++ concat ss

unfoldable pub is_one_of : Bytes → List Bytes → Bool
is_one_of k [] = false
is_one_of k (j ∷ js) = if equal j k then true else is_one_of k js

module _ (pad : Bytes → Bytes) (unmarshal : Bytes → Option (List (Bytes × Bytes)))
    (order : List Bytes → List Bytes) where
  abbrev param_line : Bytes → Bytes → Bytes
  param_line k v = codes "  " ++ (pad (k ++ codes ":") ++ (32 ∷ (v ++ (10 ∷ []))))

  -- The lines of the keys that are there.
  unfoldable pub known_lines : List (Bytes × Bytes) → List Bytes → List Bytes
  known_lines m [] = []
  known_lines m (k ∷ ks) = elim (lookup k m) [
    | none ↦ known_lines m ks
    | some v ↦ param_line k v ∷ known_lines m ks
  ]

  -- The lines of the other keys.
  unfoldable pub other_lines : List (Bytes × Bytes) → List Bytes
  other_lines [] = []
  other_lines ((k, v) ∷ m) =
      if is_one_of k key_fields then other_lines m else param_line k v ∷ other_lines m

  unfoldable pub pair_texts : List (Bytes × Bytes) → List Bytes
  pair_texts [] = []
  pair_texts ((k, v) ∷ m) = (k ++ (b'=' ∷ v)) ∷ pair_texts m

  abbrev json_text : Bytes → Option (List (Bytes × Bytes)) → Bytes
  json_text body none = body
  json_text body (some m) = join (codes ", ") (order (pair_texts m))

  -- `formatJSONBody`
  unfoldable pub format_json_body : Bytes → Bytes
  format_json_body body = json_text body (unmarshal body)

  abbrev body_line : ℕ → NacosMessage → Bytes
  body_line limit msg =
      codes "  Body: "
      ++ (shorten limit (if msg.is_json then format_json_body msg.body else msg.body) ++ (10 ∷ []))

  abbrev request_text : NacosMessage → Bytes
  request_text msg =
      concat (known_lines msg.params key_fields)
      ++ (concat (order (other_lines msg.params))
          ++ (if not (length msg.body == 0) && length msg.params == 0
              then body_line 500 msg
              else []))

  abbrev response_text : NacosMessage → Bytes
  response_text msg =
      codes "  Status: "
      ++ (dec_ℤ msg.status_code
          ++ (32
              ∷ ((if leb_ℤ (pos 400) msg.status_code then codes "ERROR" else codes "OK")
                  ++ (10
                      ∷ (if not (length msg.body == 0) && not (equal msg.body (codes "ok"))
                          then body_line 300 msg
                          else [])))))

  -- `FormatNacosMessage`
  unfoldable pub format_nacos_message : NacosMessage → Bytes
  format_nacos_message msg =
      codes "  "
      ++ (msg.summary
          ++ (10
              ∷ (if equal msg.method (codes "GRPC")
                  then []
                  else if not (length msg.method == 0)
                  then request_text msg
                  else response_text msg)))

  unfoldable pub known_pairs : List (Bytes × Bytes) → List Bytes → List Bytes
  known_pairs m [] = []
  known_pairs m (k ∷ ks) = elim (lookup k m) [
    | none ↦ known_pairs m ks
    | some v ↦ (k ++ (b'=' ∷ v)) ∷ known_pairs m ks
  ]

  abbrev extra_of : List Bytes → Bytes
  extra_of [] = []
  extra_of (v ∷ vs) = codes " (" ++ (join (codes ", ") (v ∷ vs) ++ codes ")")

  -- `FormatNacosURL`
  unfoldable pub format_nacos_url : NacosMessage → Bytes
  format_nacos_url msg =
      let keys = codes "serviceName" ∷ codes "group" ∷ codes "dataId" ∷ codes "username" ∷ [] in
      if equal msg.method (codes "GRPC")
      then codes "[Nacos 2.x gRPC]" ++ (10 ∷ [])
      else if not (length msg.method == 0)
      then codes "["
        ++ (msg.api_type
            ++ (codes "] "
                ++ (msg.method
                    ++ (32 ∷ (msg.path ++ (extra_of (known_pairs msg.params keys) ++ (10 ∷ [])))))))
      else codes "[Nacos] HTTP " ++ (dec_ℤ msg.status_code ++ (10 ∷ []))
