-- ===== src/Tcp/Seq.antt =====
-- `compareTCPSeq` of tcpport/assembler.go. `int` is 64 bits wide, so `int(x)` of an unsigned
-- 32-bit `x` is never negative.
pub mod Order
use tcp_port.Base.{if◌then◌else◌, ltb, ℕ, ◌%◌, ◌&&◌, ◌+◌, ◌-◌, ◌^◌}
use tcp_port.Base.Int.{pos, to_int32, ℤ}

abbrev pub max_tcp_seq : ℕ
max_tcp_seq = 2 ^ 32 - 1

abbrev pub tcp_seq_window : ℕ
tcp_seq_window = 65535

-- `a - b` on 32-bit words
abbrev pub sub32 : ℕ → ℕ → ℕ
sub32 a b = (a + 2 ^ 32 - b) % 2 ^ 32

unfoldable pub compare_tcp_seq : ℕ → ℕ → ℤ
compare_tcp_seq seq1 seq2 =
    if ltb seq1 tcp_seq_window && ltb (max_tcp_seq - tcp_seq_window) seq2
    then pos (sub32 ((seq1 + max_tcp_seq) % 2 ^ 32) seq2)
    else if ltb seq2 tcp_seq_window && ltb (max_tcp_seq - tcp_seq_window) seq1
    then pos (sub32 seq1 ((max_tcp_seq + seq2) % 2 ^ 32))
    else to_int32 (sub32 seq1 seq2)
