-- ===== src/Tcp/Packet.antt =====
-- The fields of gopacket's `layers.TCP` that assembler.go reads. Sequence numbers are 32-bit words.
use tcp_port.Base.{Bool, length, ℕ, ◌%◌, ◌+◌, ◌^◌}
use tcp_port.Base.Slice.{Bytes}

pub record Packet : Type 0 where
  pub seq : ℕ
  pub ack : ℕ
  pub is_syn : Bool
  pub is_ack : Bool
  pub is_fin : Bool
  pub is_rst : Bool
  pub payload : Bytes

-- `packet.Seq + uint32(len(packet.Payload))`
abbrev pub seq_end : Packet → ℕ
seq_end p = (p.seq + length p.payload) % 2 ^ 32
