-- ===== src/Tcp/Stream.antt =====
-- `netStream` of tcpport/assembler.go: one direction of a connection, read as a stream. The channel
-- is the list of the packets in it and whether it is open. It is taken to be as long as needed:
-- that a send waits while 1024 packets lie in it is not modelled. To send on a closed channel, or
-- to close it again, panics.
pub mod Reads
use tcp_port.Base.Outcome.{◌>>=◌}
use tcp_port.Base.{
  Bool, List, Option, [], drop, false, if◌then◌else◌, length, ltb, none, some, suc, take, true,
  zero, ℕ, ◌++◌, ◌+◌, ◌∷◌,
}
use tcp_port.Base.Outcome.{Outcome, ok, panic}
use tcp_port.Base.Slice.{Bytes}
use tcp_port.Tcp.Packet.{Packet}
use tcp_port.Tcp.Window.{Window, confirm, insert, new_receive_window}

pub record NetStream : Type 0 where
  pub window : Window
  pub pending : List Packet
  pub is_open : Bool
  pub remain : Bytes
  pub ignore : Bool
  pub closed : Bool

abbrev pub new_net_stream : NetStream
new_net_stream = record {
  window = new_receive_window 64;
  pending = [];
  is_open = true;
  remain = [];
  ignore = false;
  closed = false;
}

unfoldable pub append_packet : NetStream → Packet → Outcome NetStream
append_packet s tcp =
    if s.ignore then ok s else do w ← insert s.window tcp; ok (record s { window = w })

-- `confirm` on the stream's channel.
unfoldable pub send_all : NetStream → Window × List Packet → Outcome NetStream
send_all s (w, []) = ok (record s { window = w })
send_all s (w, p ∷ ps) =
    if s.is_open then ok (record s { window = w; pending = s.pending ++ p ∷ ps }) else panic

unfoldable pub confirm_packet : NetStream → ℕ → Outcome NetStream
unfolding send_all
confirm_packet s ack = if s.ignore then ok s else do r ← confirm s.window ack; send_all s r

unfoldable pub finish : NetStream → Outcome NetStream
finish s = if s.is_open then ok (record s { is_open = false }) else panic

-- `Prepend`; with no data it does nothing, which is the same.
unfoldable pub prepend : NetStream → Bytes → NetStream
prepend s front = if ltb 0 (length front) then record s { remain = front ++ s.remain } else s

-- The loop of `Read`: packets are received while nothing remains.
unfoldable pub receive : Bytes → List Packet → Bytes × List Packet
receive [] [] = ([], [])
receive [] (p ∷ ps) = receive p.payload ps
receive (b ∷ bs) ps = (b ∷ bs, ps)

-- What a call of `Read` comes to: data, the end of the stream, or a wait for the next packet.
pub data ReadResult : Type 0 where
  got : Bytes → NetStream → ReadResult
  at_end : NetStream → ReadResult
  waits : NetStream → ReadResult

unfoldable pub read_received : NetStream → ℕ → Bytes × List Packet → ReadResult
read_received s n ([], ps) =
    let s' = record s { remain = []; pending = ps } in if s.is_open then waits s' else at_end s'
read_received s n (b ∷ bs, ps) =
    let r = b ∷ bs in
    if ltb n (length r)
    then got (take n r) (record s { remain = drop n r; pending = ps })
    else got r (record s { remain = []; pending = ps })

-- `Read` into a buffer of `n` bytes.
unfoldable pub read : NetStream → ℕ → ReadResult
unfolding receive read_received
read s n = read_received s n (receive s.remain s.pending)

unfoldable pub close : NetStream → NetStream
close s = record s { ignore = true }

-- `DiscardAll` of tcpport/text.go on a stream, from `n` bytes counted: reads of 32768 bytes until
-- one fails. `none`: the rounds are used up, or a read waits.
unfoldable pub discard_all : ℕ → NetStream → ℕ → Option ℕ
discard_all zero s n = none
discard_all (suc f) s n = elim (read s 32768) [
  | got out s' ↦ discard_all f s' (n + length out)
  | at_end s' ↦ some n
  | waits s' ↦ none
]
