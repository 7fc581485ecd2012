-- ===== src/Tests/Output.antt =====
-- Messages on their way through the printers.
use tcp_port.Base.{Bool, [], arith, refl, true, ◌++◌, ◌∷◌, ◌≡◌}
use tcp_port.Base.Slice.{Bytes}
use tcp_port.Base.Text.{codes}
use tcp_port.Printer.{PrinterMsg, new_multi_printer, opens}
use tcp_port.Printer.Drain.{Moves-Filed, Moves-Ordered, Moves-drained}
use tcp_port.Printer.Order.{Filed, Ordered, texts}
use tcp_port.Printer.Schedule.{Move, Moves, System, new_system}

abbrev join_path : Bytes → Bytes → Bytes
join_path dir name = dir ++ (b'/' ∷ name)

abbrev any_path : Bytes → Bool
any_path path = true

abbrev hello : PrinterMsg
hello = record { protocol = codes "redis"; message = codes "hello" }

-- A message has passed the test of `Send`, and is then sent.
abbrev passed : System
passed = record (new_system (codes "out")) { ready = hello ∷ [] }

abbrev entered : System
entered = record {
  printer = record (new_multi_printer (codes "out")) { output_queue = hello ∷ [] };
  ready = [];
  sent = hello ∷ [];
}

hello_sent : Moves join_path any_path (new_system (codes "out")) entered
hello_sent =
    Moves.then_move
      (Moves.then_move Moves.stay (Move.pass (new_system (codes "out")) hello (omega arith)))
      (Move.enter passed [] [] hello entered.printer refl (omega arith) refl)

Moves-Ordered_example : Ordered entered
Moves-Ordered_example = Moves-Ordered join_path any_path (codes "out") entered hello_sent

redis_opens : opens join_path any_path (codes "out") (codes "redis") ≡ true
unfolding opens
redis_opens = refl

Moves-Filed_example :
    Filed join_path any_path (codes "out") (codes "redis") refl refl redis_opens entered
Moves-Filed_example =
    Moves-Filed join_path any_path (codes "out") (codes "redis") refl refl redis_opens entered
      hello_sent

Moves-drained_example :
    (t : System) × Moves join_path any_path entered t
    × (t.printer.output_queue ≡ [])
    × (t.sent ≡ hello ∷ [])
    × (t.printer.stdout ≡ texts (hello ∷ []))
Moves-drained_example = Moves-drained join_path any_path (codes "out") entered hello_sent
