-- ===== src/Mysql/Server/Kinds.antt =====
-- Which server packets `parseServerPacket` panics on, and which types it never gives.
use native.Mathlib.Decide.{dec_lt, ℕ_discrete}
use tcp_port.Base.{[], arith, drop, length, refl, ◌<◌, ◌∷◌, ◌≡◌, ◌≢◌}
use tcp_port.Base.Outcome.{ok, panic}
use tcp_port.Base.Slice.{Bytes, at, cut, slice, slice_from}
use tcp_port.Base.Text.{codes}
use tcp_port.Mysql.Message.{MysqlMessage, response_err}
use tcp_port.Mysql.Server.{parse_error_text, parse_server_payload}
use tcp_port.Base.{if◌then◌else◌, leb, ◌↔◌}
use tcp_port.Base.Outcome.{Outcome, fail}
use tcp_port.Base.Slice.{le16}
use tcp_port.Mysql.Message.{MysqlPacket, new_message}
use tcp_port.Mysql.Server.{parse_err, parse_ok, parse_result_set}
use tcp_port.Mysql.Server.{parse_handshake}

-- An ERR packet that ends inside the SQL state that it announces.
pub record IsCutError (payload : Bytes) : Type 0 where
  pub is_err : at payload 0 ≡ response_err
  pub marked : at payload 3 ≡ b'#'
  pub has_mark : 3 < length payload
  pub too_short : length payload < 9

parse_error_text-panic :
    (msg : MysqlMessage) (payload : Bytes)
    → IsCutError payload
    → parse_error_text msg payload ≡ panic
unfolding parse_error_text slice
parse_error_text-panic msg payload c = ground arith

parse_error_text-ok :
    (msg : MysqlMessage) (payload : Bytes)
    → at payload 0 ≡ response_err
    → ¬ (IsCutError payload)
    → (m : MysqlMessage) × (parse_error_text msg payload ≡ ok m) × (m.kind ≡ msg.kind)
unfolding parse_error_text slice slice_from
parse_error_text-ok msg payload e no_cut = elim (dec_lt 3 (length payload)) [
  | no short ↦ (msg, ground arith, refl)
  | yes long ↦ elim (ℕ_discrete (at payload 3) b'#') [
    | no plain ↦ (record msg { error_msg = drop 3 payload }, ground arith, refl)
    | yes marked ↦ elim (dec_lt (length payload) 9) [
      | yes cut_off ↦
          absurd
            (no_cut (record { is_err = e; marked = marked; has_mark = long; too_short = cut_off }))
      | no full ↦ (
        record msg { sql_state = cut payload 4 9; error_msg = drop 9 payload },
        ground arith,
        refl,
      )
    ]
  ]
]

-- A message whose type is not "eof".
abbrev pub GivesOtherThanEof : Outcome MysqlMessage → Type 0
GivesOtherThanEof (ok m) = m.kind ≢ codes "eof"
GivesOtherThanEof (fail e) = ⊥
GivesOtherThanEof panic = ⊥

parse_err-GivesOtherThanEof :
    (msg : MysqlMessage) (payload : Bytes)
    → at payload 0 ≡ response_err
    → ¬ (IsCutError payload)
    → GivesOtherThanEof (parse_err msg payload)
unfolding parse_err
parse_err-GivesOtherThanEof msg payload e no_cut =
    let code = if leb 3 (length payload) then le16 payload 1 else msg.error_code in
    let coded = record msg { kind = codes "error"; error_code = code } in
    let (m, r, k) = parse_error_text-ok coded payload e no_cut in rw (r, k) (λ e'. cc)

parse_ok-kind : (msg : MysqlMessage) (payload : Bytes) → (parse_ok msg payload).kind ≡ codes "ok"
unfolding parse_ok
parse_ok-kind msg payload = ground arith

parse_result_set-kind :
    (msg : MysqlMessage) (payload : Bytes) → (parse_result_set msg payload).kind ≢ codes "eof"
unfolding parse_result_set
parse_result_set-kind msg payload = ground arith

parse_handshake-kind :
    (msg : MysqlMessage) (payload : Bytes) → (parse_handshake msg payload).kind ≡ codes "handshake"
unfolding parse_handshake
parse_handshake-kind msg payload = refl

handshake_not_eof : codes "handshake" ≢ codes "eof"
handshake_not_eof = ground arith

-- No server packet is given the type "eof": a packet that starts with 0xfe is taken for OK before
-- it is looked at as EOF. The message is new, so its type is empty at first; the packet is not an
-- ERR packet that ends inside its SQL state.
pub parse_server_payload-GivesOtherThanEof :
    (packet : MysqlPacket) (payload : Bytes)
    → ¬ (IsCutError payload)
    → GivesOtherThanEof (parse_server_payload (new_message packet) payload)
unfolding parse_server_payload new_message
parse_server_payload-GivesOtherThanEof packet [] no_cut = ground arith
parse_server_payload-GivesOtherThanEof packet (first ∷ rest) no_cut =
    let msg = new_message packet in
    ground (
      arith,
      parse_err-GivesOtherThanEof msg (first ∷ rest),
      parse_handshake-kind msg (first ∷ rest),
      handshake_not_eof,
      parse_ok-kind msg (first ∷ rest),
      parse_result_set-kind msg (first ∷ rest),
    )

decide_cut : (payload : Bytes) → Dec (IsCutError payload)
decide_cut p = elim (ℕ_discrete (at p 0) response_err) [
  | no other ↦ no (λ c. other c.is_err)
  | yes e ↦ elim (ℕ_discrete (at p 3) b'#') [
    | no plain ↦ no (λ c. plain c.marked)
    | yes marked ↦ elim (dec_lt 3 (length p)) [
      | no short ↦ no (λ c. short c.has_mark)
      | yes long ↦ elim (dec_lt (length p) 9) [
        | no full ↦ no (λ c. full c.too_short)
        | yes h ↦ yes (record { is_err = e; marked = marked; has_mark = long; too_short = h })
      ]
    ]
  ]
]

parse_err-panic : (msg : MysqlMessage) (p : Bytes) → IsCutError p → parse_err msg p ≡ panic
unfolding parse_err
parse_err-panic msg p c =
    let code = if leb 3 (length p) then le16 p 1 else msg.error_code in
    let coded = record msg { kind = codes "error"; error_code = code } in
    rw (parse_error_text-panic coded p c) refl

parse_server_payload-panic :
    (msg : MysqlMessage) (payload : Bytes)
    → IsCutError payload
    → parse_server_payload msg payload ≡ panic
unfolding parse_server_payload
parse_server_payload-panic msg [] c = absurd (omega (arith, c.has_mark))
parse_server_payload-panic msg (first ∷ rest) c =
    ground (arith, parse_err-panic msg (first ∷ rest) c, c.is_err)

-- Exactly the ERR packets that end inside the SQL state that they announce make the parser panic.
pub parse_server_payload-panic_iff :
    (packet : MysqlPacket) (payload : Bytes)
    → (parse_server_payload (new_message packet) payload ≡ panic) ↔ IsCutError payload
parse_server_payload-panic_iff packet payload = (
  λ e. elim (decide_cut payload) [
    | yes c ↦ c
    | no n ↦ absurd (rw e at (parse_server_payload-GivesOtherThanEof packet payload n))
  ],
  parse_server_payload-panic (new_message packet) payload,
)
