-- ===== src/App/Handler/Readers.antt =====
-- The readers of Redis commands, RocketMQ commands and ZooKeeper messages take a byte at least.
use tcp_port.Base.Leaves.{
  Eats, Eats-bind, Leaves, Frugal, bind-Frugal, if-Frugal, pure-Frugal, throw-Frugal,
  wrap_error-Frugal, read_string-Leaves, lift-Leaves, read_full-Eats, read_full-Leaves,
  read_string-Eats,
}
use tcp_port.Base.Reader.{read_full, read_string}
use tcp_port.Base.Outcome.{eof}
use tcp_port.Base.Int.{ℤ, pos, negsuc}
use tcp_port.Redis.{command_of, inline_of, Added, read_length}
use tcp_port.Redis
use tcp_port.Base.{Option, [], arith, length, refl, suc, zero, ℕ}
use tcp_port.Base.Slice.{Bytes}
use tcp_port.Redis.{read_args, read_bulk}
use tcp_port.Rocketmq.{RemotingCommand}
use tcp_port.Rocketmq.Reader.{read_remoting_command}
use tcp_port.Zookeeper.{read_zk_message}
use tcp_port.Base.{Bool-cases, List, drop, inl, inr, ltb, none, some, ◌*◌, ◌++◌, ◌==◌, ◌∷◌}
use tcp_port.Base.Slice.{at}
use tcp_port.Base.Text.{atoi, trim_line}
use tcp_port.Redis.{max_alloc, read_arg, read_resp_command, type_array, type_bulk_string}
use tcp_port.Redis.Leaves.{read_bulk-Leaves}

ruleset frugal = (
  bind-Frugal, if-Frugal, pure-Frugal, throw-Frugal, wrap_error-Frugal, read_string-Leaves,
  lift-Leaves, read_full-Leaves,
)

read_length-Frugal : (line : Bytes) (n : Option ℤ) → Frugal (read_length line n)
read_length-Frugal line none = pure-Frugal ([], line ∷ [])
read_length-Frugal line (some (negsuc n)) = pure-Frugal ([] ∷ [], line ∷ [])
read_length-Frugal line (some (pos n)) =
    bind-Frugal (read_bulk n) _ (read_bulk-Leaves n)
      (λ val. pure-Frugal (val ∷ [], line ∷ val ∷ []))

read_arg-Frugal : Frugal read_arg
unfolding read_arg
read_arg-Frugal = bind-Frugal (read_string 10) _ (read_string-Leaves 10) (λ l.
    let line = trim_line l in
    if-Frugal (length line == 0) _ _ (pure-Frugal ([], line ∷ [])) (
      if-Frugal (at line 0 == type_bulk_string) _ _ (read_length-Frugal line (atoi (drop 1 line)))
        (pure-Frugal ([], line ∷ []))))

read_args-Frugal : (n : ℕ) → Frugal (read_args n)
unfolding read_args
read_args-Frugal zero = pure-Frugal ([], [])
read_args-Frugal (suc n) = bind-Frugal read_arg _ read_arg-Frugal (λ a.
    bind-Frugal (read_args n) _ (read_args-Frugal n) (λ b. pure-Frugal (a.0 ++ b.0, a.1 ++ b.1)))

module _ (fields : Bytes → List Bytes) (to_upper : Bytes → Bytes) where
  read_array-Frugal :
      (line : Bytes) (n : Option ℤ) → Frugal (Redis.read_array fields to_upper line n)
  unfolding Leaves
  read_array-Frugal line none r = omega arith
  read_array-Frugal line (some (negsuc n)) r = tt
  read_array-Frugal line (some (pos n)) r = elim (Bool-cases (ltb max_alloc (n * 16))) [
    | inl e ↦ rw e tt
    | inr e ↦ rw e (
        bind-Frugal (read_args n) _ (read_args-Frugal n)
          (λ a. pure-Frugal (command_of fields to_upper line a)) r)
  ]

  pub read_resp_command-Eats : (r : Bytes) → Eats (length r) (read_resp_command fields to_upper r)
  unfolding read_resp_command
  read_resp_command-Eats r =
      Eats-bind (length r) (read_string 10 r) (read_string 10) _ r refl (read_string-Eats 10 r)
        (λ l.
          let line = trim_line l in
          if-Frugal (length line == 0) _ _ (throw-Frugal _ eof) (
            if-Frugal (at line 0 == type_array) _ _ (read_array-Frugal line (atoi (drop 1 line)))
              (pure-Frugal (inline_of fields to_upper line (fields line)))))

pub read_remoting_command-Eats :
    (unmarshal : Bytes → RemotingCommand → Option RemotingCommand) (r : Bytes)
    → Eats (length r) (read_remoting_command unmarshal r)
unfolding read_remoting_command
read_remoting_command-Eats unmarshal r =
    Eats-bind (length r) (read_full 4 r) (read_full 4) _ r refl (read_full-Eats 4 r (omega arith))
      (λ l. search frugal)

pub read_zk_message-Eats : (direction r : Bytes) → Eats (length r) (read_zk_message direction r)
unfolding read_zk_message
read_zk_message-Eats direction r =
    Eats-bind (length r) (read_full 12 r) (read_full 12) _ r refl
      (read_full-Eats 12 r (omega arith)) (λ l. search frugal)
