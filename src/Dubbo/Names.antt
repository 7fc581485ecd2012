-- ===== src/Dubbo/Names.antt =====
-- dubboport/serialization.go.
use tcp_port.Base.{List, [], none, some, ℕ, ◌++◌, ◌∷◌}
use tcp_port.Base.Slice.{Bytes}
use tcp_port.Base.Text.{codes, dec, find_name}

unfoldable pub serialization_names : List (ℕ × Bytes)
serialization_names =
    (0, codes "hessian2")
    ∷ (1, codes "java")
    ∷ (2, codes "compactedjava")
    ∷ (3, codes "nativejava")
    ∷ (4, codes "fastjson")
    ∷ (5, codes "hessian1")
    ∷ (6, codes "kryo")
    ∷ (7, codes "fst")
    ∷ (8, codes "json")
    ∷ (9, codes "msgpack")
    ∷ (10, codes "protobuf")
    ∷ (11, codes "protobuf-json")
    ∷ []

unfoldable pub serialization_string : ℕ → Bytes
serialization_string s = elim (find_name s serialization_names) [
  | none ↦ codes "unknown(" ++ (dec s ++ codes ")")
  | some name ↦ name
]

unfoldable pub status_names : List (ℕ × Bytes)
status_names =
    (20, codes "OK")
    ∷ (30, codes "CLIENT_TIMEOUT")
    ∷ (31, codes "SERVER_TIMEOUT")
    ∷ (40, codes "BAD_REQUEST")
    ∷ (50, codes "BAD_RESPONSE")
    ∷ (60, codes "SERVICE_NOT_FOUND")
    ∷ (70, codes "SERVICE_ERROR")
    ∷ (80, codes "SERVER_ERROR")
    ∷ (90, codes "CLIENT_ERROR")
    ∷ (100, codes "SERVER_THREADPOOL_EXHAUSTED")
    ∷ []

unfoldable pub status_string : ℕ → Bytes
status_string status = elim (find_name status status_names) [
  | none ↦ codes "UNKNOWN(" ++ (dec status ++ codes ")")
  | some name ↦ name
]
