-- ===== src/Tcp/Connection.antt =====
-- `Endpoint` and `TCPConnection` of tcpport/assembler.go.
pub mod Valid
use tcp_port.Base.Outcome.{◌>>=◌}
use tcp_port.Tcp.Stream
use tcp_port.Base.{Bool, [], equal, false, if◌then◌else◌, true, ℕ, ◌&&◌, ◌++◌, ◌==◌, ◌||◌, ◌∷◌}
use tcp_port.Base.Outcome.{Outcome, ok}
use tcp_port.Base.Slice.{Bytes}
use tcp_port.Base.Text.{dec}
use tcp_port.Tcp.Packet.{Packet}
use tcp_port.Tcp.Stream.{NetStream, append_packet, confirm_packet, new_net_stream}

pub record Endpoint : Type 0 where
  pub ip : Bytes
  pub port : ℕ

-- `Endpoint.Equals` and `Endpoint.String`
unfoldable pub equals : Endpoint → Endpoint → Bool
equals p p2 = equal p.ip p2.ip && p.port == p2.port

unfoldable pub string_of : Endpoint → Bytes
string_of p = p.ip ++ b':' ∷ dec p.port

pub record Connection : Type 0 where
  pub up_stream : NetStream
  pub down_stream : NetStream
  pub client_id : Endpoint
  pub last_timestamp : ℕ
  pub is_rpc : Bool
  pub key : Bytes

unfoldable pub new_tcp_connection : Bytes → Connection
new_tcp_connection key = record {
  up_stream = new_net_stream;
  down_stream = new_net_stream;
  client_id = record { ip = []; port = 0 };
  last_timestamp = 0;
  is_rpc = false;
  key = key;
}

-- The first lines of `onReceive`: the sender of the first packet is the client.
unfoldable pub note_client : Connection → Endpoint → ℕ → Connection
note_client c src timestamp =
    if c.is_rpc
    then record c { last_timestamp = timestamp }
    else record c { last_timestamp = timestamp; client_id = src; is_rpc = true }

-- What a packet does to the stream of its sender, after it is appended.
unfoldable pub mark_closed : NetStream → Packet → NetStream
mark_closed s tcp = if tcp.is_fin || tcp.is_rst then record s { closed = true } else s

-- The rest of `onReceive` on the sender's stream and the other one.
unfoldable pub transfer : NetStream → NetStream → Packet → Outcome (NetStream × NetStream)
unfolding mark_closed
transfer send_stream confirm_stream tcp = do
  sent ← append_packet send_stream tcp
  confirmed ← if tcp.is_ack then confirm_packet confirm_stream tcp.ack else ok confirm_stream
  ok (mark_closed sent tcp, confirmed)

-- The two cases of `onReceive`: whether the client sent the packet.
unfoldable pub receive_from : Bool → Connection → Packet → Outcome Connection
receive_from true c tcp = do
  r ← transfer c.up_stream c.down_stream tcp
  ok (record c { up_stream = r.0; down_stream = r.1 })
receive_from false c tcp = do
  r ← transfer c.down_stream c.up_stream tcp
  ok (record c { down_stream = r.0; up_stream = r.1 })

unfoldable pub on_receive : Connection → Endpoint → Packet → ℕ → Outcome Connection
on_receive c0 src tcp timestamp =
    let c = note_client c0 src timestamp in receive_from (equals c.client_id src) c tcp

unfoldable pub is_closed : Connection → Bool
is_closed c = c.up_stream.closed && c.down_stream.closed

unfoldable pub finish : Connection → Outcome Connection
finish c = do
  up ← Stream.finish c.up_stream
  down ← Stream.finish c.down_stream
  ok (record c { up_stream = up; down_stream = down })

unfoldable pub flush_older_than : Connection → Outcome Connection
unfolding finish
flush_older_than c = finish (record c {
  up_stream = record c.up_stream { closed = true };
  down_stream = record c.down_stream { closed = true };
})
