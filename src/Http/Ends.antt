-- ===== src/Http/Ends.antt =====
-- The loops of `ReadHTTPMessage` (httpport/http_protocol.go) end.
use tcp_port.Base.Reader.{◌>>=◌, Reading, throw}
use tcp_port.Base.Leaves.{
  Eats, Eats-bind, Leaves, if-Leaves, read_string-Leaves, Leaves-more, Leaves-bind, lift-Leaves,
  read_string-Eats,
}
use tcp_port.Base.{
  Bool, Option, arith, false, if◌then◌else◌, length, suc, true, zero, ℕ, ◌<◌, ◌==◌, ◌≡◌,
}
use tcp_port.Base.Int.{ℤ}
use tcp_port.Base.Leaves.{Leaves-more, LineLeaves, find_line-LineLeaves}
use tcp_port.Base.Reader.{
  Line, Read, bind-done, bind-failed, done, failed, find_line, found, line_result, missing,
  panicked, read_string,
}
use tcp_port.Base.Slice.{Bytes}
use tcp_port.Base.Text.{trim_line}
use tcp_port.Http.{HttpMessage, add_header, after_line, read_headers, read_http_message}
use tcp_port.Base.{Bool-cases, inl, inr, refl, ◌≢◌}
use tcp_port.Base.Outcome.{eof}
use tcp_port.Base.Reader.{lift}
use tcp_port.Base.Text.{codes, has_prefix, split_first}
use tcp_port.Http.{http_methods, is_method, parse_first_line, read_rest}
use tcp_port.Base.{none, some}
use tcp_port.Http.{parse_parts}

-- A read that needs no more rounds than it is given.
abbrev pub IsOver : {A : Type 0} → Reading A → Type 0
IsOver (done a r) = Unit {0}
IsOver (failed e r) = Unit {0}
IsOver panicked = ⊥

pub IsOver-bind :
    {A B : Type 0} (m : Read A) (f : A → Read B) (x : Reading A) (r : Bytes)
    → m r ≡ x
    → IsOver x
    → ((a : A) (r' : Bytes) → IsOver (f a r'))
    → IsOver ((m >>= f) r)
IsOver-bind m f (done a r') r e h k = rw (bind-done m f r r' a e) (k a r')
IsOver-bind m f (failed x r') r e h k = rw (bind-failed m f r r' x e) tt
IsOver-bind m f panicked r e h k = absurd h

pub if-IsOver :
    {A : Type 0} (b : Bool) (x y : Reading A) → IsOver x → IsOver y → IsOver (if b then x else y)
if-IsOver true x y h k = h
if-IsOver false x y h k = k

pub line_result-IsOver : (x : Line) → IsOver (line_result x)
line_result-IsOver (found line rest) = tt
line_result-IsOver missing = tt

module _ (trim_space to_lower : Bytes → Bytes) (scan_int : Bytes → Option ℤ) where
  after_line-Leaves :
      (next : HttpMessage → Read HttpMessage) (msg : HttpMessage) (l : ℕ) (x : Reading Bytes)
      → Leaves l x
      → ((m : HttpMessage) (r : Bytes) → Leaves (length r) (next m r))
      → Leaves l (after_line trim_space to_lower scan_int next msg x)
  unfolding Leaves
  after_line-Leaves next msg l (done line r) h k =
      elim (Bool-cases (length (trim_line line) == 0)) [
        | inl e ↦ rw e h
        | inr e ↦
            let msg' = add_header trim_space to_lower scan_int (trim_line line) msg in
            rw e (Leaves-more (length r) l (next msg' r) h (k msg' r))
      ]
  after_line-Leaves next msg l (failed e r) h k = h
  after_line-Leaves next msg l panicked h k = tt

  read_headers-Leaves :
      (n : ℕ) (msg : HttpMessage) (r : Bytes)
      → Leaves (length r) (read_headers trim_space to_lower scan_int n msg r)
  unfolding read_headers Leaves
  read_headers-Leaves zero msg r = tt
  read_headers-Leaves (suc n) msg r =
      after_line-Leaves (read_headers trim_space to_lower scan_int n) msg (length r)
        (read_string 10 r) (read_string-Leaves 10 r) (read_headers-Leaves n)

  read_rest-Leaves :
      (msg : HttpMessage) (r : Bytes)
      → Leaves (length r) (read_rest trim_space to_lower scan_int msg r)
  unfolding Leaves
  read_rest-Leaves msg r =
      let headers = read_headers trim_space to_lower scan_int (suc (length r)) msg in
      Leaves-bind (length r) (headers r) headers _ r refl
        (read_headers-Leaves (suc (length r)) msg r) (λ m r' h. h)

  behind_line-Leaves :
      (line r : Bytes)
      → Leaves (length r) (
          (lift (parse_first_line trim_space to_lower scan_int line)
              >>= read_rest trim_space to_lower scan_int)
            r)
  behind_line-Leaves line r =
      let first = parse_first_line trim_space to_lower scan_int line in
      Leaves-bind (length r) (lift first r) (lift first) _ r refl (lift-Leaves first r) (λ m r' h.
        Leaves-more (length r') (length r) (read_rest trim_space to_lower scan_int m r') h
          (read_rest-Leaves m r'))

  -- A message takes a byte at least.
  pub read_http_message-Eats :
      (r : Bytes) → Eats (length r) (read_http_message trim_space to_lower scan_int r)
  unfolding read_http_message Leaves
  read_http_message-Eats r =
      Eats-bind (length r) (read_string 10 r) (read_string 10) _ r refl (read_string-Eats 10 r)
        (λ l r'.
          if-Leaves (length (trim_line l) == 0) (throw eof) _ r' (omega arith)
            (behind_line-Leaves (trim_line l) r'))

  after_line-IsOver :
      (next : HttpMessage → Read HttpMessage) (msg : HttpMessage) (l : ℕ) (x : Line)
      → LineLeaves l x
      → ((m : HttpMessage) (r : Bytes) → length r < l → IsOver (next m r))
      → IsOver (after_line trim_space to_lower scan_int next msg (line_result x))
  unfolding LineLeaves
  after_line-IsOver next msg l (found line r) h k =
      if-IsOver (length (trim_line line) == 0) (done msg r)
        (next (add_header trim_space to_lower scan_int (trim_line line) msg) r) tt
        (k (add_header trim_space to_lower scan_int (trim_line line) msg) r h)
  after_line-IsOver next msg l missing h k = tt

  -- One round more than there are bytes is enough.
  read_headers-IsOver :
      (n : ℕ) (msg : HttpMessage) (r : Bytes)
      → length r < n
      → IsOver (read_headers trim_space to_lower scan_int n msg r)
  unfolding read_headers read_string
  read_headers-IsOver zero msg r h = absurd (omega (arith, h))
  read_headers-IsOver (suc n) msg r h =
      after_line-IsOver (read_headers trim_space to_lower scan_int n) msg (length r)
        (find_line 10 r) (find_line-LineLeaves 10 r)
        (λ m r' e. read_headers-IsOver n m r' (omega (arith, e, h)))

  read_rest-IsOver :
      (msg : HttpMessage) (r : Bytes) → IsOver (read_rest trim_space to_lower scan_int msg r)
  read_rest-IsOver msg r =
      let headers = read_headers trim_space to_lower scan_int (suc (length r)) msg in
      IsOver-bind headers _ (headers r) r refl
        (read_headers-IsOver (suc (length r)) msg r (omega arith)) (λ m r'. tt)

  parse_parts-IsOver :
      (line r : Bytes) (x : Option (Bytes × Bytes))
      → IsOver (lift (parse_parts trim_space to_lower scan_int line x) r)
  parse_parts-IsOver line r none = tt
  parse_parts-IsOver line r (some p) = elim (Bool-cases (is_method p.0 http_methods)) [
    | inl m ↦ rw m tt
    | inr m ↦ elim (Bool-cases (has_prefix p.0 (codes "HTTP/"))) [
      | inl h ↦ rw (m, h) tt
      | inr h ↦ rw (m, h) tt
    ]
  ]

  parse_first_line-IsOver :
      (line r : Bytes) → IsOver (lift (parse_first_line trim_space to_lower scan_int line) r)
  unfolding parse_first_line
  parse_first_line-IsOver line r = parse_parts-IsOver line r (split_first 32 line)

  read_http_message-IsOver : (r : Bytes) → IsOver (read_http_message trim_space to_lower scan_int r)
  unfolding read_http_message read_string
  read_http_message-IsOver r =
      IsOver-bind (read_string 10) _ (line_result (find_line 10 r)) r refl
        (line_result-IsOver (find_line 10 r))
        (λ l r'. elim (Bool-cases (length (trim_line l) == 0)) [
          | inl e ↦ rw e tt
          | inr e ↦
              let first = parse_first_line trim_space to_lower scan_int (trim_line l) in
              rw e (
                IsOver-bind (lift first) (read_rest trim_space to_lower scan_int) (lift first r') r'
                  refl (parse_first_line-IsOver (trim_line l) r') read_rest-IsOver)
        ])

  IsOver-ne : (x : Reading HttpMessage) → IsOver x → x ≢ panicked
  IsOver-ne (done m r) h e = cc
  IsOver-ne (failed x r) h e = cc
  IsOver-ne panicked h e = h

  -- `ReadHTTPMessage` comes to an end, and never panics, on any bytes: the headers need no more
  -- rounds than they are given.
  pub read_http_message-ne-panicked :
      (r : Bytes) → read_http_message trim_space to_lower scan_int r ≢ panicked
  read_http_message-ne-panicked r =
      IsOver-ne (read_http_message trim_space to_lower scan_int r) (read_http_message-IsOver r)
