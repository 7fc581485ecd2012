-- ===== src/Redis/Leaves.antt =====
-- How many bytes the readers of redisport/resp_protocol.go leave.
use tcp_port.Base.Leaves.{
  Leaves, find_line-LineLeaves, Leaves-more, line-Leaves, Leaves-bind, read_full-Leaves, if-Leaves,
}
use tcp_port.Base.Int.{pos, negsuc}
use tcp_port.Base.{
  Bool-cases, List, Option, arith, inl, inr, length, ltb, none, refl, some, suc, zero, ℕ, ◌*◌, ◌+◌,
  ◌==◌, ◌||◌,
}
use tcp_port.Base.Int.{ℤ}
use tcp_port.Base.Reader.{Read, Reading, done, failed, find_line, panicked, read_full, read_string}
use tcp_port.Base.Slice.{Bytes, at}
use tcp_port.Base.Text.{trim_line}
use tcp_port.Redis.{
  RespResponse, max_alloc, read_bulk, type_array, type_bulk_string, type_error, type_integer,
  type_simple_string,
}
use tcp_port.Redis.Reply.{after_value, array_reply, bulk_reply, read_values, reply_round, reply_to}

pub read_bulk-Leaves : (n : ℕ) (r : Bytes) → Leaves (length r) (read_bulk n r)
unfolding read_bulk Leaves
read_bulk-Leaves n r = elim (Bool-cases (ltb max_alloc (n + 2))) [
  | inl e ↦ rw e tt
  | inr e ↦ rw e (
      Leaves-bind (length r) (read_full (n + 2) r) (read_full (n + 2)) _ r refl
        (read_full-Leaves (n + 2) r) (λ a r' h. h))
]

bulk_reply-Leaves :
    (line : Bytes) (n : Option ℤ) (r : Bytes) → Leaves (length r) (bulk_reply line n r)
unfolding bulk_reply Leaves
bulk_reply-Leaves line none r = omega arith
bulk_reply-Leaves line (some (negsuc n)) r = omega arith
bulk_reply-Leaves line (some (pos n)) r =
    Leaves-bind (length r) (read_bulk n r) (read_bulk n) _ r refl (read_bulk-Leaves n r)
      (λ a r' h. h)

module _ (reply : Read RespResponse) (leaves : (r : Bytes) → Leaves (length r) (reply r)) where
  after_value-Leaves :
      (next : Read (List Bytes)) (l : ℕ) (x : Reading RespResponse)
      → Leaves l x
      → ((r : Bytes) → Leaves (length r) (next r))
      → Leaves l (after_value next x)
  unfolding Leaves
  after_value-Leaves next l (done sub r) h k =
      Leaves-bind l (next r) next _ r refl (Leaves-more (length r) l (next r) h (k r)) (λ a r' e. e)
  after_value-Leaves next l (failed x r) h k = h
  after_value-Leaves next l panicked h k = h

  read_values-Leaves : (n : ℕ) (r : Bytes) → Leaves (length r) (read_values reply n r)
  unfolding read_values Leaves
  read_values-Leaves zero r = omega arith
  read_values-Leaves (suc n) r =
      after_value-Leaves (read_values reply n) (length r) (reply r) (leaves r)
        (read_values-Leaves n)

  array_reply-Leaves :
      (line : Bytes) (n : Option ℤ) (r : Bytes) → Leaves (length r) (array_reply reply line n r)
  unfolding array_reply Leaves
  array_reply-Leaves line none r = omega arith
  array_reply-Leaves line (some (negsuc n)) r = omega arith
  array_reply-Leaves line (some (pos n)) r = elim (Bool-cases (ltb max_alloc (n * 16))) [
    | inl e ↦ rw e tt
    | inr e ↦ rw e (
        Leaves-bind (length r) (read_values reply n r) (read_values reply n) _ r refl
          (read_values-Leaves n r) (λ a r' h. h))
  ]

  reply_to-Leaves : (line r : Bytes) → Leaves (length r) (reply_to reply line r)
  unfolding reply_to Leaves
  reply_to-Leaves line r = if-Leaves (length line == 0) _ _ r (omega arith) (
      if-Leaves (at line 0 == type_bulk_string) _ _ r (bulk_reply-Leaves line _ r) (
        if-Leaves (at line 0 == type_array) _ _ r (array_reply-Leaves line _ r) (
          if-Leaves
            (at line 0 == type_simple_string
              || at line 0 == type_error
              || at line 0 == type_integer)
            _ _ r (omega arith) (omega arith))))

  pub reply_round-Leaves : (r : Bytes) → Leaves (length r) (reply_round reply r)
  unfolding reply_round read_string
  reply_round-Leaves r =
      line-Leaves (length r) (find_line 10 r) (read_string 10) _ r (find_line-LineLeaves 10 r) refl
        (λ line rest k. reply_to-Leaves (trim_line line) rest)
