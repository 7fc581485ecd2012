-- ===== src/Nacos/Panics.antt =====
-- `ReadNacosMessage` (nacosport/nacos_protocol.go) comes to an end, and which messages it panics on.
use tcp_port.Base.Outcome.{ok, fail, panic, eof, Outcome}
use tcp_port.Base.Reader.{throw, bind-failed}
use tcp_port.Base.Reader.{◌>>=◌}
use tcp_port.Base.Reader.{bind-done, ◌>>=◌}
use tcp_port.Base.{le→ltb_false}
use tcp_port.Base.Reader.{Reading, done, failed, panicked}
use tcp_port.Base.Leaves.{LineLeaves, find_line-LineLeaves}
use tcp_port.Base.Reader.{found, missing, Line}
use tcp_port.Base.Int.{pos, negsuc}
use tcp_port.Http.Ends.{IsOver, if-IsOver}
use tcp_port.Base.{
  Bool-cases, Option, arith, if◌then◌else◌, inl, inr, length, ltb, refl, suc, zero, ℕ, ◌<◌, ◌==◌,
}
use tcp_port.Base.Int.{ℤ}
use tcp_port.Base.Reader.{Read, find_line, lift, line_result, read_full, read_string}
use tcp_port.Base.Slice.{Bytes}
use tcp_port.Base.Text.{codes, has_prefix, split_first, trim_line}
use tcp_port.Nacos.{
  Head, NacosMessage, after_body, after_head, blank_head, message_of, put_head, read_behind,
  read_content, read_head, read_nacos_message,
}
use tcp_port.Redis.{max_alloc}
use tcp_port.Base.{Bool, [], false, leb, le→ltb_false, none, some, true, ◌≢◌, ◌≤◌}
use tcp_port.Base.Int.{pos_part}
use tcp_port.Http.{http_methods, is_method}
use tcp_port.Base.{◌≡◌}
use tcp_port.Http.Ends.{IsOver-bind, line_result-IsOver}
use tcp_port.Base.{ltb→lt, lt→ltb, sym, ◌↔◌, ◌∙◌}
use tcp_port.Nacos.{read_nacos_grpc, read_nacos_http}
use tcp_port.Base.{ltb_false→le}

-- A read that succeeds.
abbrev pub Gives : {A : Type 0} → Reading A → Type 0
Gives {A = A} x = (a : A) × (r : Bytes) × (x ≡ done a r)

if-Gives :
    {A : Type 0} (b : Bool) (x y : Reading A) → Gives x → Gives y → Gives (if b then x else y)
if-Gives true x y h k = h
if-Gives false x y h k = k

module _ (trim_space to_lower : Bytes → Bytes) (unescape : Bytes → Option Bytes)
    (to_int : Bytes → ℤ) (scan_int : Bytes → Option ℤ) where
  read_full-IsOver : (n : ℕ) (r : Bytes) → IsOver (read_full n r)
  unfolding read_full
  read_full-IsOver n r = elim (Bool-cases (leb n (length r))) [
    | inl e ↦ rw e tt
    | inr e ↦ elim (Bool-cases (length r == 0)) [ inl z ↦ rw (e, z) tt | inr z ↦ rw (e, z) tt ]
  ]

  after_body-IsOver :
      (h : Head) (msg : NacosMessage) (n : ℕ) (r : Bytes)
      → IsOver (after_body trim_space to_lower unescape to_int scan_int h msg (read_full n r))
  unfolding read_full
  after_body-IsOver h msg n r = elim (Bool-cases (leb n (length r))) [
    | inl e ↦ rw e tt
    | inr e ↦ elim (Bool-cases (length r == 0)) [ inl z ↦ rw (e, z) tt | inr z ↦ rw (e, z) tt ]
  ]

  read_content-IsOver :
      (h : Head) (msg : NacosMessage) (n : ℤ) (r : Bytes)
      → pos_part n ≤ max_alloc
      → IsOver (read_content trim_space to_lower unescape to_int scan_int h msg n r)
  read_content-IsOver h msg (negsuc n) r e = tt
  read_content-IsOver h msg (pos n) r e =
      let content = after_body trim_space to_lower unescape to_int scan_int h msg (read_full n r) in
      if-IsOver (n == 0) (done _ r) (if ltb max_alloc n then panicked else content) tt
        (rw (le→ltb_false max_alloc n e) (after_body-IsOver h msg n r))

  message_of-IsOver :
      (direction line r : Bytes) (x : Option (Bytes × Bytes))
      → IsOver (lift (message_of trim_space to_lower unescape to_int scan_int direction line x) r)
  message_of-IsOver direction line r none = tt
  message_of-IsOver direction line r (some p) = elim (Bool-cases (is_method p.0 http_methods)) [
    | inl m ↦ rw m tt
    | inr m ↦ elim (Bool-cases (has_prefix p.0 (codes "HTTP/"))) [
      | inl h ↦ rw (m, h) tt
      | inr h ↦ rw (m, h) tt
    ]
  ]

  after_head-Gives :
      (next : Head → Read Head) (h : Head) (l : ℕ) (x : Line)
      → LineLeaves l x
      → ((h' : Head) (r : Bytes) → length r < l → Gives (next h' r))
      → Gives (after_head trim_space to_lower unescape to_int scan_int next h (line_result x))
  unfolding LineLeaves
  after_head-Gives next h l (found line r) e k =
      let h' =
        put_head trim_space to_lower unescape to_int scan_int (split_first b':' (trim_line line))
          h in
      if-Gives (length (trim_line line) == 0) (done h r) (next h' r) (h, r, refl) (k h' r e)
  after_head-Gives next h l missing e k = (h, [], refl)

  -- The loop over the headers succeeds, with more rounds than there are bytes.
  pub read_head-Gives :
      (n : ℕ) (h : Head) (r : Bytes)
      → length r < n
      → Gives (read_head trim_space to_lower unescape to_int scan_int n h r)
  unfolding read_head read_string
  read_head-Gives zero h r e = absurd (omega (arith, e))
  read_head-Gives (suc n) h r e =
      after_head-Gives (read_head trim_space to_lower unescape to_int scan_int n) h (length r)
        (find_line 10 r) (find_line-LineLeaves 10 r)
        (λ h' r' k. read_head-Gives n h' r' (omega (arith, e, k)))

  -- A first line of HTTP, and headers behind it that give a length above 2^48.
  pub record Oversized (direction r : Bytes) : Type 0 where
    pub line : Bytes
    pub behind_line : Bytes
    pub message : NacosMessage
    pub head : Head
    pub behind_head : Bytes
    pub no_preface : has_prefix r (codes "PRI * HTTP/2.0") ≡ false
    pub has_line : read_string 10 r ≡ done line behind_line
    pub not_empty : (length (trim_line line) == 0) ≡ false
    pub has_message :
        message_of trim_space to_lower unescape to_int scan_int direction
          (trim_line line)
          (split_first 32 (trim_line line))
        ≡ ok message
    pub has_head :
        read_head trim_space to_lower unescape to_int scan_int
          (suc (length behind_line))
          (blank_head trim_space to_lower unescape to_int scan_int)
          behind_line
        ≡ done head behind_head
    pub too_long : max_alloc < pos_part head.content_length

  IsOver-ne : {A : Type 0} (x : Reading A) → IsOver x → x ≢ panicked
  IsOver-ne (done m r) h e = absurd (cc e)
  IsOver-ne (failed x r) h e = absurd (cc e)
  IsOver-ne panicked h e = h

  read_content-long :
      (h : Head) (msg : NacosMessage) (n : ℤ) (r : Bytes)
      → read_content trim_space to_lower unescape to_int scan_int h msg n r ≡ panicked
      → max_alloc < pos_part n
  read_content-long h msg n r e = elim (Bool-cases (ltb max_alloc (pos_part n))) [
    | inl c ↦ ltb→lt max_alloc (pos_part n) c
    | inr c ↦ absurd (
        IsOver-ne (read_content trim_space to_lower unescape to_int scan_int h msg n r)
          (read_content-IsOver h msg n r (ltb_false→le max_alloc (pos_part n) c)) e)
  ]

  read_content-panicked :
      (h : Head) (msg : NacosMessage) (n : ℤ) (r : Bytes)
      → max_alloc < pos_part n
      → read_content trim_space to_lower unescape to_int scan_int h msg n r ≡ panicked
  read_content-panicked h msg (negsuc n) r e = absurd (omega (arith, e))
  read_content-panicked h msg (pos n) r e =
      let some_bytes : (n == 0) ≡ false = ground (arith, e) in
      rw (some_bytes, lt→ltb max_alloc n e) refl

  read_behind-eq :
      (msg : NacosMessage) (h : Head) (r r' : Bytes)
      → read_head trim_space to_lower unescape to_int scan_int
          (suc (length r))
          (blank_head trim_space to_lower unescape to_int scan_int)
          r
        ≡ done h r'
      → read_behind trim_space to_lower unescape to_int scan_int msg r
        ≡ read_content trim_space to_lower unescape to_int scan_int h msg h.content_length r'
  read_behind-eq msg h r r' e =
      bind-done
        (read_head trim_space to_lower unescape to_int scan_int (suc (length r))
          (blank_head trim_space to_lower unescape to_int scan_int))
        (λ h. read_content trim_space to_lower unescape to_int scan_int h msg h.content_length) r r'
        h e

  module _ (direction : Bytes) where
    abbrev behind_first : Bytes → Read NacosMessage
    behind_first l =
        let line = trim_line l in
        if length line == 0
        then throw eof
        else (lift (
              message_of trim_space to_lower unescape to_int scan_int direction line
                (split_first 32 line))
            >>= read_behind trim_space to_lower unescape to_int scan_int)

    cause_of_message :
        (r line behind_line : Bytes) (x : Outcome NacosMessage)
        → has_prefix r (codes "PRI * HTTP/2.0") ≡ false
        → read_string 10 r ≡ done line behind_line
        → (length (trim_line line) == 0) ≡ false
        → message_of trim_space to_lower unescape to_int scan_int direction
            (trim_line line)
            (split_first 32 (trim_line line))
          ≡ x
        → IsOver (lift x behind_line)
        → (lift x >>= read_behind trim_space to_lower unescape to_int scan_int) behind_line
          ≡ panicked
        → Oversized direction r
    cause_of_message r line behind_line (ok msg) h k l m o e =
        let (head, behind_head, g) =
          read_head-Gives (suc (length behind_line))
            (blank_head trim_space to_lower unescape to_int scan_int) behind_line (omega arith) in
        record {
          line = line;
          behind_line = behind_line;
          message = msg;
          head = head;
          behind_head = behind_head;
          no_preface = h;
          has_line = k;
          not_empty = l;
          has_message = m;
          has_head = g;
          too_long =
              read_content-long head msg head.content_length behind_head
                (sym (read_behind-eq msg head behind_line behind_head g) ∙ e);
        }
    cause_of_message r line behind_line (fail x) h k l m o e = absurd (cc e)
    cause_of_message r line behind_line panic h k l m o e = absurd o

    cause_of_line :
        (r : Bytes) (x : Reading Bytes)
        → has_prefix r (codes "PRI * HTTP/2.0") ≡ false
        → read_string 10 r ≡ x
        → IsOver x
        → read_nacos_http trim_space to_lower unescape to_int scan_int direction r ≡ panicked
        → Oversized direction r
    cause_of_line r (done line r') h k o e =
        let e' : behind_first line r' ≡ panicked =
          sym (bind-done (read_string 10) behind_first r r' line k) ∙ e in
        elim (Bool-cases (length (trim_line line) == 0)) [
          | inl c ↦ absurd (cc (rw c at e'))
          | inr c ↦
              let first =
                message_of trim_space to_lower unescape to_int scan_int direction (trim_line line)
                  (split_first 32 (trim_line line)) in
              cause_of_message r line r' first h k c refl
                (message_of-IsOver direction (trim_line line) r' (split_first 32 (trim_line line)))
                (rw c at e')
        ]
    cause_of_line r (failed x r') h k o e =
        absurd (cc (sym (bind-failed (read_string 10) behind_first r r' x k) ∙ e))
    cause_of_line r panicked h k o e = absurd o

    cause_of_panic :
        (r : Bytes)
        → read_nacos_message trim_space to_lower unescape to_int scan_int direction r ≡ panicked
        → Oversized direction r
    unfolding read_nacos_message read_string
    cause_of_panic r e = elim (Bool-cases (has_prefix r (codes "PRI * HTTP/2.0"))) [
      | inl c ↦ absurd (
          IsOver-ne (read_nacos_grpc trim_space to_lower unescape to_int scan_int direction r)
            (IsOver-bind (read_full 24) _ (read_full 24 r) r refl (read_full-IsOver 24 r)
              (λ preface r'. tt))
            (rw c at e))
      | inr c ↦
          cause_of_line r (line_result (find_line 10 r)) c refl
            (line_result-IsOver (find_line 10 r)) (rw c at e)
    ]

    panic_of_cause :
        (r : Bytes)
        → Oversized direction r
        → read_nacos_message trim_space to_lower unescape to_int scan_int direction r ≡ panicked
    unfolding read_nacos_message
    panic_of_cause r c =
        let first =
          message_of trim_space to_lower unescape to_int scan_int direction (trim_line c.line)
            (split_first 32 (trim_line c.line)) in
        let lifted : lift first c.behind_line ≡ done c.message c.behind_line =
          rw c.has_message refl in
        rw c.no_preface (
          bind-done (read_string 10) behind_first r c.behind_line c.line c.has_line
          ∙ rw c.not_empty (
              bind-done (lift first) (read_behind trim_space to_lower unescape to_int scan_int)
                c.behind_line c.behind_line c.message lifted
              ∙ read_behind-eq c.message c.head c.behind_line c.behind_head c.has_head
              ∙ read_content-panicked c.head c.message c.head.content_length c.behind_head
                  c.too_long))

    -- `ReadNacosMessage` panics exactly on a message of HTTP, with a first line that is one, whose
    -- headers give a length above 2^48. Since to run out of rounds is to panic too, the loop over the
    -- headers comes to an end on any bytes.
    pub read_nacos_message-panic_iff :
        (r : Bytes)
        → (read_nacos_message trim_space to_lower unescape to_int scan_int direction r ≡ panicked)
          ↔ Oversized direction r
    read_nacos_message-panic_iff r = (cause_of_panic r, panic_of_cause r)
