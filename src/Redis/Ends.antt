-- ===== src/Redis/Ends.antt =====
-- The recursion of `ReadRESPResponse` (redisport/resp_protocol.go) comes to an end.
use tcp_port.Base.Reader.{◌>>=◌}
use tcp_port.Base.Int.{pos, negsuc}
use tcp_port.Base.{
  Bool, Bool-cases, List, Option, [], ap, arith, drop, false, if◌then◌else◌, inl, inr, length, ltb,
  none, refl, some, suc, sym, true, zero, ℕ, ◌*◌, ◌<◌, ◌==◌, ◌∙◌, ◌≡◌, ◌≤◌,
}
use tcp_port.Base.Int.{ℤ}
use tcp_port.Base.Outcome.{eof}
use tcp_port.Base.Reader.{
  Line, Read, Reading, bind-agree, bind-done, bind-failed, done, failed, find_line, found,
  line_result, missing, panicked, read_string,
}
use tcp_port.Base.Slice.{Bytes, at}
use tcp_port.Base.Text.{atoi, trim_line}
use tcp_port.Redis.{RespResponse, max_alloc, type_array, type_bulk_string}
use tcp_port.Base.Leaves.{Leaves, LineLeaves, find_line-LineLeaves}
use tcp_port.Redis.Leaves.{reply_round-Leaves}
use tcp_port.Redis.Reply.{
  after_value, array_reply, read_replies, read_resp_response, read_values, reply_round, reply_to,
}

-- What follows a line has fewer bytes left.
line-agree :
    (l : ℕ) (x : Line) (m : Read Bytes) (f g : Bytes → Read RespResponse) (r : Bytes)
    → LineLeaves l x
    → m r ≡ line_result x
    → ((line rest : Bytes) → length rest < l → f line rest ≡ g line rest)
    → (m >>= f) r ≡ (m >>= g) r
unfolding LineLeaves
line-agree l (found line rest) m f g r h e k =
    bind-done m f r rest line e ∙ (k line rest h ∙ sym (bind-done m g r rest line e))
line-agree l missing m f g r h e k = bind-failed m f r [] eof e ∙ sym (bind-failed m g r [] eof e)

-- Two readers of elements that agree on what they are called with.
module _ (reply reply' : Read RespResponse) (l : ℕ)
    (agree : (r : Bytes) → length r < l → reply r ≡ reply' r)
    (leaves : (r : Bytes) → Leaves (length r) (reply r)) where
  after_value-agree :
      (next next' : Read (List Bytes)) (k : ℕ) (x : Reading RespResponse)
      → k < l
      → Leaves k x
      → ((r : Bytes) → length r < l → next r ≡ next' r)
      → after_value next x ≡ after_value next' x
  unfolding Leaves
  after_value-agree next next' k (done sub r) h m e =
      bind-agree next next' _ r (e r (omega (arith, h, m)))
  after_value-agree next next' k (failed x r) h m e = refl
  after_value-agree next next' k panicked h m e = refl

  read_values-agree :
      (n : ℕ) (r : Bytes) → length r < l → read_values reply n r ≡ read_values reply' n r
  unfolding read_values
  read_values-agree zero r h = refl
  read_values-agree (suc n) r h =
      after_value-agree (read_values reply n) (read_values reply' n) (length r) (reply r) h
        (leaves r) (read_values-agree n)
      ∙ ap (after_value (read_values reply' n)) (agree r h)

  array_reply-agree :
      (line : Bytes) (count : Option ℤ) (r : Bytes)
      → length r < l
      → array_reply reply line count r ≡ array_reply reply' line count r
  unfolding array_reply
  array_reply-agree line none r h = refl
  array_reply-agree line (some (negsuc n)) r h = refl
  array_reply-agree line (some (pos n)) r h = elim (Bool-cases (ltb max_alloc (n * 16))) [
    | inl e ↦ rw e refl
    | inr e ↦
        rw e (bind-agree (read_values reply n) (read_values reply' n) _ r (read_values-agree n r h))
  ]

  if-agree :
      (b : Bool) (m m' k k' : Read RespResponse) (r : Bytes)
      → m r ≡ m' r
      → k r ≡ k' r
      → (if b then m else k) r ≡ (if b then m' else k') r
  if-agree true m m' k k' r e f = e
  if-agree false m m' k k' r e f = f

  reply_to-agree : (line r : Bytes) → length r < l → reply_to reply line r ≡ reply_to reply' line r
  unfolding reply_to
  reply_to-agree line r h = if-agree (length line == 0) _ _ _ _ r refl (
      if-agree (at line 0 == type_bulk_string) _ _ _ _ r refl (
        if-agree (at line 0 == type_array) _ _ _ _ r
          (array_reply-agree line (atoi (drop 1 line)) r h) refl))

  reply_round-agree : (r : Bytes) → length r ≤ l → reply_round reply r ≡ reply_round reply' r
  unfolding reply_round read_string
  reply_round-agree r h =
      line-agree (length r) (find_line 10 r) (read_string 10) _ _ r (find_line-LineLeaves 10 r) refl
        (λ line rest k. reply_to-agree (trim_line line) rest (omega (arith, h, k)))

read_replies-Leaves : (n : ℕ) (r : Bytes) → Leaves (length r) (read_replies (λ r'. panicked) n r)
unfolding read_replies Leaves
read_replies-Leaves zero r = tt
read_replies-Leaves (suc n) r =
    reply_round-Leaves (read_replies (λ r'. panicked) n) (read_replies-Leaves n) r

read_replies-agree :
    (out : Read RespResponse) (n m : ℕ) (r : Bytes)
    → length r < n
    → length r < m
    → read_replies (λ r'. panicked) n r ≡ read_replies out m r
unfolding read_replies
read_replies-agree out zero m r h k = absurd (omega (arith, h))
read_replies-agree out (suc n) zero r h k = absurd (omega (arith, k))
read_replies-agree out (suc n) (suc m) r h k =
    reply_round-agree (read_replies (λ r'. panicked) n) (read_replies out m) (length r)
      (λ r' e. read_replies-agree out n m r' (omega (arith, e, h)) (omega (arith, e, k)))
      (read_replies-Leaves n) r (omega arith)

-- The recursion of `ReadRESPResponse` over the elements of arrays comes to an end on any bytes,
-- however they are nested: with more rounds than there are bytes, the rounds are never used up,
-- since the result is the same whatever comes when they are, and however many more rounds there are.
pub read_resp_response-rounds :
    (out : Read RespResponse) (n : ℕ) (r : Bytes)
    → length r < n
    → read_replies out n r ≡ read_resp_response r
unfolding read_resp_response
read_resp_response-rounds out n r h =
    sym (read_replies-agree out (suc (length r)) n r (omega arith) h)
