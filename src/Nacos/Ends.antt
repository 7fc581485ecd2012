-- ===== src/Nacos/Ends.antt =====
-- The loop over the headers in `ReadNacosMessage` (nacosport/nacos_protocol.go) ends, and a message
-- takes a byte at least.
use tcp_port.Base.Reader.{Reading, done, failed, panicked}
use tcp_port.Base.Leaves.{
  Eats, Eats-bind, Leaves, read_string-Leaves, Leaves-more, lift-Leaves, read_string-Eats,
  read_full-Eats, read_full-Leaves, Frugal, if-Frugal, pure-Frugal,
}
use tcp_port.Base.Leaves.{bind-Frugal, throw-Frugal}
use tcp_port.Base.Int.{pos, negsuc}
use tcp_port.Base.{
  Bool-cases, Option, arith, if◌then◌else◌, inl, inr, length, ltb, refl, suc, zero, ℕ, ◌==◌,
}
use tcp_port.Base.Int.{ℤ}
use tcp_port.Base.Outcome.{eof}
use tcp_port.Base.Reader.{Read, lift, read_full, read_string}
use tcp_port.Base.Slice.{Bytes}
use tcp_port.Base.Text.{codes, has_prefix, split_first, trim_line}
use tcp_port.Nacos.{
  Head, NacosMessage, after_body, after_head, blank_head, message_of, put_head, read_behind,
  read_content, read_head, read_nacos_message,
}
use tcp_port.Redis.{max_alloc}
use tcp_port.Base.{Bool, false, true}

branch-Leaves :
    {A : Type 0} (l : ℕ) (b : Bool) (x y : Reading A)
    → Leaves l x
    → Leaves l y
    → Leaves l (if b then x else y)
branch-Leaves l true x y h k = h
branch-Leaves l false x y h k = k

module _ (trim_space to_lower : Bytes → Bytes) (unescape : Bytes → Option Bytes)
    (to_int : Bytes → ℤ) (scan_int : Bytes → Option ℤ) where
  after_head-Leaves :
      (next : Head → Read Head) (h : Head) (l : ℕ) (x : Reading Bytes)
      → Leaves l x
      → ((h' : Head) (r : Bytes) → Leaves (length r) (next h' r))
      → Leaves l (after_head trim_space to_lower unescape to_int scan_int next h x)
  unfolding Leaves
  after_head-Leaves next h l (done line r) e k = elim (Bool-cases (length (trim_line line) == 0)) [
    | inl c ↦ rw c e
    | inr c ↦
        let h' =
          put_head trim_space to_lower unescape to_int scan_int (split_first b':' (trim_line line))
            h in
        rw c (Leaves-more (length r) l (next h' r) e (k h' r))
  ]
  after_head-Leaves next h l (failed x r) e k = e
  after_head-Leaves next h l panicked e k = tt

  read_head-Frugal :
      (n : ℕ) (h : Head) → Frugal (read_head trim_space to_lower unescape to_int scan_int n h)
  unfolding read_head Leaves
  read_head-Frugal zero h r = tt
  read_head-Frugal (suc n) h r =
      after_head-Leaves (read_head trim_space to_lower unescape to_int scan_int n) h (length r)
        (read_string 10 r) (read_string-Leaves 10 r) (read_head-Frugal n)

  after_body-Leaves :
      (h : Head) (msg : NacosMessage) (l : ℕ) (x : Reading Bytes)
      → Leaves l x
      → Leaves l (after_body trim_space to_lower unescape to_int scan_int h msg x)
  unfolding Leaves
  after_body-Leaves h msg l (done body r) e = e
  after_body-Leaves h msg l (failed x r) e = e
  after_body-Leaves h msg l panicked e = tt

  read_content-Frugal :
      (h : Head) (msg : NacosMessage) (n : ℤ)
      → Frugal (read_content trim_space to_lower unescape to_int scan_int h msg n)
  unfolding Leaves
  read_content-Frugal h msg (negsuc n) r = omega arith
  read_content-Frugal h msg (pos n) r =
      let content = after_body trim_space to_lower unescape to_int scan_int h msg (read_full n r) in
      branch-Leaves (length r) (n == 0) (done _ r) (if ltb max_alloc n then panicked else content)
        (omega arith)
        (branch-Leaves (length r) (ltb max_alloc n) panicked content tt
          (after_body-Leaves h msg (length r) (read_full n r) (read_full-Leaves n r)))

  read_behind-Frugal :
      (msg : NacosMessage) → Frugal (read_behind trim_space to_lower unescape to_int scan_int msg)
  read_behind-Frugal msg r =
      bind-Frugal
        (read_head trim_space to_lower unescape to_int scan_int (suc (length r))
          (blank_head trim_space to_lower unescape to_int scan_int))
        _
        (read_head-Frugal (suc (length r))
          (blank_head trim_space to_lower unescape to_int scan_int))
        (λ h. read_content-Frugal h msg h.content_length) r

  -- A message takes a byte at least.
  pub read_nacos_message-Eats :
      (direction r : Bytes)
      → Eats
          (length r)
          (read_nacos_message trim_space to_lower unescape to_int scan_int direction r)
  unfolding read_nacos_message
  read_nacos_message-Eats direction r = elim (Bool-cases (has_prefix r (codes "PRI * HTTP/2.0"))) [
    | inl c ↦ rw c (
        Eats-bind (length r) (read_full 24 r) (read_full 24) _ r refl
          (read_full-Eats 24 r (omega arith)) (λ preface. pure-Frugal _))
    | inr c ↦ rw c (
        Eats-bind (length r) (read_string 10 r) (read_string 10) _ r refl (read_string-Eats 10 r)
          (λ l.
            let line = trim_line l in
            let first =
              message_of trim_space to_lower unescape to_int scan_int direction line
                (split_first 32 line) in
            if-Frugal (length line == 0) _ _ (throw-Frugal NacosMessage eof) (
              bind-Frugal (lift first) (read_behind trim_space to_lower unescape to_int scan_int)
                (lift-Leaves first) read_behind-Frugal)))
  ]
