-- ===== src/Tcp/Seq/Order.antt =====
-- When `compareTCPSeq` is the order of sequence numbers, and that it is none across the wrap.
use tcp_port.Base.{arith, ℕ, ◌+◌, ◌-◌, ◌<◌, ◌^◌, ◌≡◌, ◌≢◌}
use tcp_port.Base.Int.{pos, sub_ℕ, ◌<ℤ◌}
use tcp_port.Tcp.Seq.{compare_tcp_seq, max_tcp_seq, tcp_seq_window}

-- For two sequence numbers less than 2^31 apart as numbers, `compareTCPSeq` is their difference.
pub compare_tcp_seq-eq-sub :
    (a b : ℕ)
    → a < 2 ^ 32
    → b < 2 ^ 32
    → a < b + 2 ^ 31
    → b < a + 2 ^ 31
    → compare_tcp_seq a b ≡ sub_ℕ a b
unfolding compare_tcp_seq
compare_tcp_seq-eq-sub a b ha hb h k = ground arith

-- For `a` among the last 65535 sequence numbers before the wrap and `b` among the first 65535
-- behind it, other than the pair of the last number and 0, `compareTCPSeq` is positive in both
-- directions: each of the two is taken for the later one.
pub compare_tcp_seq_wrap :
    (a b : ℕ)
    → max_tcp_seq - tcp_seq_window < a
    → a < 2 ^ 32
    → b < tcp_seq_window
    → b + max_tcp_seq ≢ a
    → (pos 0 <ℤ compare_tcp_seq a b) × (pos 0 <ℤ compare_tcp_seq b a)
unfolding compare_tcp_seq
compare_tcp_seq_wrap a b h ha hb ne = ground arith
