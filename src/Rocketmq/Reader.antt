-- ===== src/Rocketmq/Reader.antt =====
-- `ReadRemotingCommand` and `DetectRocketMQ` of rocketmqport/remoting_protocol.go. `unmarshal` stands
-- for `json.Unmarshal` into the command, `is_json` for `json.Valid`.
use tcp_port.Base.Reader.{◌>>=◌}
use tcp_port.Base.{Bool, Option, false, if◌then◌else◌, leb, length, ltb, ◌&&◌, ◌++◌, ◌+◌, ◌-◌, ◌||◌}
use tcp_port.Base.Outcome.{errorf}
use tcp_port.Base.Reader.{Read, lift, read_full, throw}
use tcp_port.Base.Slice.{Bytes, be32, cut}
use tcp_port.Base.Text.{codes, dec}
use tcp_port.Rocketmq.{RemotingCommand, max_frame_size, min_frame_size, parse_frame}

module _ (unmarshal : Bytes → RemotingCommand → Option RemotingCommand) where
  unfoldable pub read_remoting_command : Read (Option RemotingCommand)
  unfolding parse_frame
  read_remoting_command = read_full 4 >>= λ len_buf.
      let frame_len = be32 len_buf 0 in
      if ltb frame_len min_frame_size || ltb max_frame_size frame_len
      then throw (errorf (codes "invalid frame length: " ++ dec frame_len))
      else read_full (frame_len - 4) >>= λ remaining.
          lift (parse_frame unmarshal frame_len remaining)

unfoldable pub detect_rocketmq : (Bytes → Bool) → Bytes → Bool
detect_rocketmq is_json s =
    let frame_len = be32 s 0 in
    let header_len = be32 s 4 in
    let header_end = 8 + header_len - 4 in
    if ltb (length s) 4
    then false
    else if ltb frame_len min_frame_size || ltb max_frame_size frame_len
    then false
    else if leb 8 (length s)
        && (leb 4 header_len && leb header_len frame_len)
        && (leb header_len (length s - 8) && leb header_end (length s))
    then is_json (cut s 8 header_end)
    else leb min_frame_size frame_len && leb frame_len max_frame_size
