-- ===== src/Dubbo/Metadata.antt =====
-- The metadata of a request (`parseRequestMetadata`, dubboport/dubbo_protocol.go), read back.
use tcp_port.Base.{
  All, List, [], ap, append_assoc, ◌≤◌, le→ltb_false, append-nil, arith, length, length-append,
  refl, some, ℕ, ◌++◌, ◌+◌, ◌<◌, ◌^◌, ◌∙◌, ◌∷◌, ◌≡◌, lt→ltb, suc,
}
use tcp_port.Base.Slice.{Bytes}
use tcp_port.Dubbo.Hessian.{encode_hessian2, hessian2_header, read_hessian2_string-encode}
use tcp_port.Dubbo.Strings.{
  RequestMetadata, read_strings, read_hessian2_string, parse_request_metadata, set_metadata,
}

length-encode_hessian2 :
    (s : Bytes) → length (encode_hessian2 s) ≡ hessian2_header (length s) + length s
unfolding encode_hessian2 hessian2_header
length-encode_hessian2 s = ground arith

hessian2_header-positive : (n : ℕ) → 0 < hessian2_header n
unfolding hessian2_header
hessian2_header-positive n = ground arith

-- Strings, one behind the other.
unfoldable pub encode_strings : List Bytes → Bytes → Bytes
encode_strings [] rest = rest
encode_strings (s ∷ ss) rest = encode_hessian2 s ++ encode_strings ss rest

-- A round of the loop reads the string at its position.
read_strings-round :
    (w s : Bytes) (n i j : ℕ)
    → i < length w
    → read_hessian2_string w i ≡ (s, some j)
    → read_strings w (suc n) i ≡ s ∷ read_strings w n j
unfolding read_strings
read_strings-round w s n i j h e = rw (lt→ltb i (length w) h, ap (λ q. q.1) e, ap (λ q. q.0) e) refl

read_strings-encode_round :
    (front s rest : Bytes) (n : ℕ)
    → length s < 2 ^ 32
    → read_strings (front ++ (encode_hessian2 s ++ rest)) (suc n) (length front)
      ≡ s
        ∷ read_strings
            ((front ++ encode_hessian2 s) ++ rest)
            n
            (length (front ++ encode_hessian2 s))
read_strings-encode_round front s rest n h =
    let code = encode_hessian2 s in
    let w = front ++ (code ++ rest) in
    let size = length-append front code in
    let whole = length-append front (code ++ rest) in
    let tail = length-append code rest in
    let own = length-encode_hessian2 s in
    let head = hessian2_header-positive (length s) in
    let behind : length front + hessian2_header (length s) + length s ≡ length (front ++ code) =
      omega (arith, size, own) in
    read_strings-round w s n (length front) (length front + hessian2_header (length s) + length s)
      (omega (arith, whole, tail, own, head)) (read_hessian2_string-encode front s rest h)
    ∙ rw (behind, append_assoc front code rest) refl

-- The loop reads all the strings before it looks at what stands behind them.
read_strings-encode :
    (ss : List Bytes) (front rest : Bytes) (n : ℕ)
    → All (λ s. length s < 2 ^ 32) ss
    → read_strings (front ++ encode_strings ss rest) (length ss + n) (length front)
      ≡ ss
        ++ read_strings (front ++ encode_strings ss rest) n (length (front ++ encode_strings ss []))
unfolding encode_strings
read_strings-encode [] front rest n h =
    let sum : 0 + n ≡ n = omega arith in rw (append-nil front, sum) refl
read_strings-encode (s ∷ ss) front rest n h =
    let here = front ++ encode_hessian2 s in
    let behind = append_assoc front (encode_hessian2 s) in
    let count : suc (length ss) + n ≡ suc (length ss + n) = omega arith in
    rw count (read_strings-encode_round front s (encode_strings ss rest) (length ss + n) h.0)
    ∙ (ap (λ l. s ∷ l) (read_strings-encode ss here rest n h.1)
        ∙ rw (behind (encode_strings ss rest), behind (encode_strings ss [])) refl)

-- Strings of fewer than 2^32 bytes behind one byte, in the shortest forms that are read, whatever
-- follows them: of five, the second to the fifth are the service, its version, the method and the
-- parameter types.
pub parse_request_metadata-encode :
    (version : ℕ) (protocol service service_version method types rest : Bytes) (m : RequestMetadata)
    → All (λ s. length s < 2 ^ 32) (protocol ∷ service ∷ service_version ∷ method ∷ types ∷ [])
    → parse_request_metadata
        (version ∷ encode_strings (protocol ∷ service ∷ service_version ∷ method ∷ types ∷ []) rest)
        m
      ≡ record {
        service_name = service;
        service_version = service_version;
        method_name = method;
        param_types = types;
      }
unfolding parse_request_metadata set_metadata encode_strings
parse_request_metadata-encode version p s v o t rest m h =
    let ss = p ∷ s ∷ v ∷ o ∷ t ∷ [] in
    let body = version ∷ encode_strings ss rest in
    let code = length-append (encode_hessian2 p) (encode_strings (s ∷ v ∷ o ∷ t ∷ []) rest) in
    let own = length-encode_hessian2 p in
    let size : 2 ≤ length body = omega (arith, code, own, hessian2_header-positive (length p)) in
    rw (le→ltb_false (length body) 2 size)
      (ap (λ l. set_metadata l m) (read_strings-encode ss (version ∷ []) rest 1 h))
