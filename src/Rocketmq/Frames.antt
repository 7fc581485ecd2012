-- ===== src/Rocketmq/Frames.antt =====
-- Frames that `ReadRemotingCommand` reads back, and frames that it panics on.
use tcp_port.Base.{
  Option, [], arith, drop-append, length, length-append, none, refl, take-append, ℕ, ◌++◌, ◌+◌, ◌-◌,
  ◌<◌, ◌∷◌, ◌≡◌, ◌≤◌,
}
use tcp_port.Base.Reader.{lift, panicked, read_full-append}
use tcp_port.Base.Slice.{
  Bytes, be32, put_be32, put_be32-be32, slice, slice-out_of_range, slice_from,
}
use tcp_port.Rocketmq.{
  RemotingCommand, max_frame_size, min_frame_size, new_command, parse_frame, set_preview,
}
use tcp_port.Rocketmq.Reader.{read_remoting_command}
use tcp_port.Base.{ap, drop, le→leb, le→ltb_false, lt→ltb, take, ◌∙◌}
use tcp_port.Base.Slice.{cut}
use tcp_port.Base.{some}
use tcp_port.Base.Outcome.{ok}
use tcp_port.Base.Reader.{done}
use tcp_port.Rocketmq.{preview}

-- A frame with the header text and the body. The header's length counts its own field.
abbrev pub encode_remoting : Bytes → Bytes → Bytes
encode_remoting header body =
    put_be32 (8 + length header + length body) ++ (put_be32 (4 + length header) ++ (header ++ body))

abbrev frame_size : Bytes → Bytes → ℕ
frame_size header body = 8 + length header + length body

-- A command with the preview of its body.
abbrev pub previewed : Bytes → RemotingCommand → RemotingCommand
previewed [] cmd = cmd
previewed (b ∷ bs) cmd = record cmd { body_preview = preview (b ∷ bs) }

set_preview-some :
    (body : Bytes) (cmd : RemotingCommand)
    → set_preview body (some cmd) ≡ ok (some (previewed body cmd))
unfolding set_preview
set_preview-some [] cmd = refl
set_preview-some (b ∷ bs) cmd = refl

previewed-header_json :
    (body : Bytes) (cmd : RemotingCommand) → (previewed body cmd).header_json ≡ cmd.header_json
previewed-header_json [] cmd = refl
previewed-header_json (b ∷ bs) cmd = refl

previewed-body : (body : Bytes) (cmd : RemotingCommand) → (previewed body cmd).body ≡ cmd.body
previewed-body [] cmd = refl
previewed-body (b ∷ bs) cmd = refl

module _ (unmarshal : Bytes → RemotingCommand → Option RemotingCommand) where
  parse_frame-parts :
      (size : ℕ) (remaining header body : Bytes)
      → be32 remaining 0 ≡ 4 + length header
      → length remaining ≡ 4 + length header + length body
      → size ≡ 8 + length header + length body
      → cut remaining 4 (4 + length header) ≡ header
      → drop (4 + length header) remaining ≡ body
      → parse_frame unmarshal size remaining
        ≡ set_preview body (unmarshal header (new_command size (4 + length header) header body))
  unfolding parse_frame slice slice_from
  parse_frame-parts size remaining header [] word long e words rest =
      rw
        (
          word,
          le→ltb_false (length remaining) 4 (omega arith),
          le→ltb_false (4 + length header) 4 (omega arith),
          le→ltb_false (length remaining + 4) (4 + length header) (omega arith),
          le→leb 4 (4 + length header) (omega arith),
          le→leb (4 + length header) (length remaining) (omega arith),
          le→ltb_false (4 + length header + 4) size (omega arith),
          words,
        )
        refl
  parse_frame-parts size remaining header (b ∷ bs) word long e words rest =
      rw
        (
          word,
          le→ltb_false (length remaining) 4 (omega arith),
          le→ltb_false (4 + length header) 4 (omega arith),
          le→ltb_false (length remaining + 4) (4 + length header) (omega arith),
          le→leb 4 (4 + length header) (omega arith),
          le→leb (4 + length header) (length remaining) (omega arith),
          lt→ltb (4 + length header + 4) size (omega arith),
          words,
          rest,
        )
        refl

  parse_frame-encode :
      (header body : Bytes)
      → frame_size header body ≤ max_frame_size
      → parse_frame unmarshal
          (frame_size header body)
          (put_be32 (4 + length header) ++ (header ++ body))
        ≡ set_preview body (
            unmarshal header (new_command (frame_size header body) (4 + length header) header body))
  parse_frame-encode header body h =
      let behind : 4 + length header - 4 ≡ length header = omega arith in
      parse_frame-parts (frame_size header body) (put_be32 (4 + length header) ++ (header ++ body))
        header body (put_be32-be32 (4 + length header) (header ++ body) (omega (arith, h)))
        (omega (arith, length-append header body)) refl
        (ap (λ n. take n (header ++ body)) behind ∙ take-append header body)
        (ground (arith, drop-append header body))

  read_remoting_command-append :
      (remaining rest : Bytes)
      → min_frame_size ≤ length remaining + 4
      → length remaining + 4 ≤ max_frame_size
      → read_remoting_command unmarshal (put_be32 (length remaining + 4) ++ (remaining ++ rest))
        ≡ lift (parse_frame unmarshal (length remaining + 4) remaining) rest
  unfolding read_remoting_command
  read_remoting_command-append remaining rest h k =
      let size = length remaining + 4 in
      ground (
        arith,
        put_be32-be32 size (remaining ++ rest),
        read_full-append (put_be32 size) (remaining ++ rest) 4 refl,
        read_full-append remaining rest (size - 4),
      )

  -- The command is what the header text is unmarshalled to, if that is not nil.
  pub read_remoting_command-frame :
      (header body rest : Bytes)
      → 2 ≤ length header + length body
      → frame_size header body ≤ max_frame_size
      → read_remoting_command unmarshal (encode_remoting header body ++ rest)
        ≡ lift
            (set_preview body (
              unmarshal header
                (new_command (frame_size header body) (4 + length header) header body)))
            rest
  read_remoting_command-frame header body rest h k =
      let remaining = put_be32 (4 + length header) ++ (header ++ body) in
      let size : length remaining + 4 ≡ frame_size header body =
        omega (arith, length-append header body) in
      let read = read_remoting_command-append remaining rest (omega arith) (omega arith) in
      (rw (size, parse_frame-encode header body k) at read)

  -- A frame whose header text is unmarshalled to a command, and to none of the fields that hold the
  -- header text and the body, is read as that command, with the header text, the body and the preview
  -- of the body, if there is one; what follows the frame is left unread. The frame has at least 10
  -- and at most 100 MB.
  pub read_remoting_command-encode_remoting :
      (header body rest : Bytes) (cmd : RemotingCommand)
      → 2 ≤ length header + length body
      → frame_size header body ≤ max_frame_size
      → unmarshal header (new_command (frame_size header body) (4 + length header) header body)
        ≡ some cmd
      → cmd.header_json ≡ header
      → cmd.body ≡ body
      → (read_remoting_command unmarshal (encode_remoting header body ++ rest)
          ≡ done (some (previewed body cmd)) rest)
        × ((previewed body cmd).header_json ≡ header)
        × ((previewed body cmd).body ≡ body)
  read_remoting_command-encode_remoting header body rest cmd h k e words bytes = (
    read_remoting_command-frame header body rest h k ∙ rw (e, set_preview-some body cmd) refl,
    previewed-header_json body cmd ∙ words,
    previewed-body body cmd ∙ bytes,
  )

  -- A frame whose header length is one to four bytes beyond the end of the frame makes the reader
  -- panic, whatever its header is. The frame has at least 10 and at most 100 MB.
  pub read_remoting_command-panic :
      (remaining rest : Bytes)
      → min_frame_size ≤ length remaining + 4
      → length remaining + 4 ≤ max_frame_size
      → length remaining < be32 remaining 0
      → be32 remaining 0 ≤ length remaining + 4
      → read_remoting_command unmarshal (put_be32 (length remaining + 4) ++ (remaining ++ rest))
        ≡ panicked
  unfolding parse_frame
  read_remoting_command-panic remaining rest h k low high =
      rw
        (
          read_remoting_command-append remaining rest h k,
          slice-out_of_range remaining 4 (be32 remaining 0) low,
          le→ltb_false (length remaining) 4 (omega arith),
          le→ltb_false (be32 remaining 0) 4 (omega arith),
          le→ltb_false (length remaining + 4) (be32 remaining 0) high,
        )
        refl

  -- A frame whose header text is unmarshalled to nil makes the reader panic if it has a body.
  pub read_remoting_command-nil :
      (header body rest : Bytes)
      → 0 < length body
      → 2 ≤ length header + length body
      → frame_size header body ≤ max_frame_size
      → ((cmd : RemotingCommand) → unmarshal header cmd ≡ none)
      → read_remoting_command unmarshal (encode_remoting header body ++ rest) ≡ panicked
  unfolding set_preview
  read_remoting_command-nil header [] rest i h k nil = absurd (omega (arith, i))
  read_remoting_command-nil header (b ∷ bs) rest i h k nil =
      let size = frame_size header (b ∷ bs) in
      rw
        (
          read_remoting_command-frame header (b ∷ bs) rest h k,
          nil (new_command size (4 + length header) header (b ∷ bs)),
        )
        refl
