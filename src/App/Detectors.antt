-- ===== src/App/Detectors.antt =====
-- The table of `autoHandler.run` of main.go, with the detectors of the packages that are not modelled
-- otherwise. `is_json` stands for `json.Valid`, `to_lower` for `strings.ToLower`.
use tcp_port.App.Auto.{Detector, run_auto}
use tcp_port.Base.{
  Bool, List, Option, [], arith, drop, false, if◌then◌else◌, leb, length, ltb, none, some, true, ℕ,
  ◌%◌, ◌&&◌, ◌++◌, ◌+◌, ◌==◌, ◌||◌, ◌∷◌, ◌≡◌, ◌≢◌, ◌≤◌, ◌⊎◌,
}
use tcp_port.Base.Slice.{Bytes, at, be16}
use tcp_port.Base.Text.{codes, contains, has_prefix}
use tcp_port.Dubbo.Triple.{detect_triple}
use tcp_port.Http.{http_methods}
use tcp_port.Mongo.{detect_mongo}
use tcp_port.Mysql.Detect.{detect_mysql}
use tcp_port.Rocketmq.Reader.{detect_rocketmq}
use tcp_port.Zookeeper.{detect_zk}
use tcp_port.Base.{equal, inl, inr, refl}
use tcp_port.Dubbo.Triple.{is_triple_preface}
use tcp_port.Base.{le→ltb_false}
use tcp_port.Base.{lt→leb_false, lt→ltb}
use tcp_port.Base.Slice.{le24}

-- `DetectDubbo` of dubboport/dubbo_protocol.go.
unfoldable pub detect_dubbo : Bytes → Bool
detect_dubbo s = if ltb (length s) 2 then false else be16 s 0 == 0xdabb

-- `DetectRESP` of redisport/resp_protocol.go.
unfoldable pub detect_resp : Bytes → Bool
detect_resp [] = false
detect_resp (b ∷ bs) = b == b'*' || b == b'+' || b == b'-' || b == b':' || b == b'$'

-- `isValidWebSocketFrameStart` of websocketport/websocket_protocol.go; the second byte is not used.
unfoldable pub is_valid_frame_start : ℕ → Bool
is_valid_frame_start b0 = let opcode = b0 % 16 in leb opcode 2 || leb 8 opcode && leb opcode 10

unfoldable pub is_upgrade : (Bytes → Bytes) → Bytes → Bool
is_upgrade to_lower s =
    let lower = to_lower s in
    contains s (13 ∷ 10 ∷ [])
    && (contains lower (codes "upgrade:") && contains lower (codes "websocket")
        || contains lower (codes "101") && contains lower (codes "switching"))

-- `DetectWebSocket` of websocketport/websocket_protocol.go.
unfoldable pub detect_websocket : (Bytes → Bytes) → Bytes → Bool
detect_websocket to_lower s =
    if length s == 0
    then false
    else if is_upgrade to_lower s
    then true
    else if leb 2 (length s)
    then is_valid_frame_start (at s 0)
    else false

-- The method that the bytes start with, with the space behind it: no two of them can match, so the
-- order in which the source goes through its map does not matter.
unfoldable pub find_method : List Bytes → Bytes → Option Bytes
find_method [] s = none
find_method (m ∷ ms) s = if has_prefix s (m ++ codes " ") then some m else find_method ms s

-- `DetectHTTP` of httpport/http_protocol.go.
unfoldable pub detect_http : Bytes → Bool
detect_http s =
    if ltb (length s) 8
    then false
    else elim (find_method http_methods s) [ some m ↦ true | none ↦ has_prefix s (codes "HTTP/1.") ]

-- `rest[:strings.IndexAny(rest, " \r\n")]`
unfoldable pub until_blank : Bytes → Bytes
until_blank [] = []
until_blank (c ∷ cs) = if c == 32 || c == 13 || c == 10 then [] else c ∷ until_blank cs

-- `DetectNacos` of nacosport/nacos_protocol.go. A path that ends at once is not cut.
unfoldable pub detect_nacos : Bytes → Bool
detect_nacos s =
    if ltb (length s) 8
    then false
    else if has_prefix s (codes "PRI * HTTP/2.0")
    then true
    else elim (find_method http_methods s) [
      | none ↦ false
      | some m ↦
          let rest = drop (length m + 1) s in
          let path = until_blank rest in
          contains (if length path == 0 then rest else path) (codes "/nacos/")
    ]

-- The table of `autoHandler.run`, in its order.
unfoldable pub detectors : (Bytes → Bool) → (Bytes → Bytes) → List Detector
detectors is_json to_lower =
    record { name = codes "dubbo"; fn = detect_dubbo }
    ∷ record { name = codes "triple"; fn = detect_triple }
    ∷ record { name = codes "rocketmq"; fn = detect_rocketmq is_json }
    ∷ record { name = codes "mongo"; fn = detect_mongo }
    ∷ record { name = codes "mysql"; fn = detect_mysql }
    ∷ record { name = codes "redis"; fn = detect_resp }
    ∷ record { name = codes "zookeeper"; fn = detect_zk }
    ∷ record { name = codes "websocket"; fn = detect_websocket to_lower }
    ∷ record { name = codes "nacos"; fn = detect_nacos }
    ∷ record { name = codes "http"; fn = detect_http }
    ∷ []

get-detect_dubbo : (rest : Bytes) → detect_dubbo (codes "GET /" ++ rest) ≡ false
unfolding detect_dubbo
get-detect_dubbo rest = ground arith

get-detect_triple : (rest : Bytes) → detect_triple (codes "GET /" ++ rest) ≡ false
unfolding detect_triple is_triple_preface equal
get-detect_triple rest = ground arith

get-detect_mongo : (rest : Bytes) → detect_mongo (codes "GET /" ++ rest) ≡ false
unfolding detect_mongo
get-detect_mongo rest = ground arith

get-detect_mysql : (rest : Bytes) → length rest ≤ 19 → detect_mysql (codes "GET /" ++ rest) ≡ false
unfolding detect_mysql
get-detect_mysql rest h =
    let s = codes "GET /" ++ rest in
    rw
      (
        lt→leb_false (4 + le24 s 0) (length s) (omega (arith, h)),
        le→ltb_false (length s) 4 (omega arith),
        lt→ltb 4 (length s) (omega arith),
      )
      refl

get-detect_resp : (rest : Bytes) → detect_resp (codes "GET /" ++ rest) ≡ false
unfolding detect_resp
get-detect_resp rest = refl

get-detect_zk : (rest : Bytes) → detect_zk (codes "GET /" ++ rest) ≡ false
unfolding detect_zk
get-detect_zk rest = ground arith

get-detect_rocketmq :
    (is_json : Bytes → Bool) (rest : Bytes)
    → detect_rocketmq is_json (codes "GET /" ++ rest) ≡ false
unfolding detect_rocketmq
get-detect_rocketmq is_json rest = ground arith

get-detect_websocket :
    (to_lower : Bytes → Bytes) (rest : Bytes)
    → is_upgrade to_lower (codes "GET /" ++ rest) ≡ false
    → detect_websocket to_lower (codes "GET /" ++ rest) ≡ false
unfolding detect_websocket is_valid_frame_start
get-detect_websocket to_lower rest h = rw h (ground arith)

get-detect_http : (rest : Bytes) → 3 ≤ length rest → detect_http (codes "GET /" ++ rest) ≡ true
unfolding detect_http find_method http_methods has_prefix
get-detect_http rest h =
    rw (le→ltb_false (length (codes "GET /" ++ rest)) 8 (omega (arith, h))) refl

module _ (is_json : Bytes → Bool) (to_lower : Bytes → Bytes) where
  detect_websocket-start :
      (b c : ℕ) (s : Bytes)
      → is_valid_frame_start b ≡ true
      → detect_websocket to_lower (b ∷ c ∷ s) ≡ true
  unfolding detect_websocket
  detect_websocket-start b c s h = ground (arith, h)

  -- A request that starts with `P`, so every POST, PUT and PATCH, and a message that starts with
  -- `H`, so every HEAD and every response, are never taken for HTTP, nor for Nacos: the first byte
  -- is a frame's of WebSocket, which is tried before.
  pub run_auto-no_http :
      (b c : ℕ) (s : Bytes)
      → (b ≡ b'P') ⊎ (b ≡ b'H')
      → (run_auto (detectors is_json to_lower) (b ∷ c ∷ s) ≢ some (codes "http"))
        × (run_auto (detectors is_json to_lower) (b ∷ c ∷ s) ≢ some (codes "nacos"))
  unfolding detectors run_auto is_valid_frame_start
  run_auto-no_http b c s h =
      let start : is_valid_frame_start b ≡ true = elim h [
        | inl p ↦ rw p refl
        | inr q ↦ rw q refl
      ] in
      rw (detect_websocket-start b c s start) (ground arith)

  -- A GET request for a path is taken for HTTP, unless it asks for the upgrade to WebSocket or for
  -- Nacos. Of the request between 8 and 24 bytes are looked at.
  pub run_auto-get :
      (rest : Bytes)
      → 3 ≤ length rest
      → length rest ≤ 19
      → is_upgrade to_lower (codes "GET /" ++ rest) ≡ false
      → detect_nacos (codes "GET /" ++ rest) ≡ false
      → run_auto (detectors is_json to_lower) (codes "GET /" ++ rest) ≡ some (codes "http")
  unfolding detectors run_auto
  run_auto-get rest h k u n =
      rw
        (
          get-detect_dubbo rest,
          get-detect_triple rest,
          get-detect_rocketmq is_json rest,
          get-detect_mongo rest,
          get-detect_mysql rest k,
          get-detect_resp rest,
          get-detect_zk rest,
          get-detect_websocket to_lower rest u,
          n,
          get-detect_http rest h,
        )
        (ground arith)
