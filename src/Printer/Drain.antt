-- ===== src/Printer/Drain.antt =====
-- The output of a `MultiPrinter` (tcpport/multiprinter.go): what has been written at any time, and
-- that all that was sent can be written.
use tcp_port.Base.{Bool, List, [], arith, false, refl, true, ◌∷◌, ◌≡◌}
use tcp_port.Base.Slice.{Bytes}
use tcp_port.Printer.{MultiPrinter, PrinterMsg, is_empty, opens, run, write_message}
use tcp_port.Printer.Order.{Filed, Ordered, content, texts, texts_of}
use tcp_port.Printer.Schedule.{Move, Moves, System, new_system}
use tcp_port.Base.{ap, append-nil, sym, ◌++◌, ◌∙◌}
use tcp_port.Printer.Order.{Ordered-Moves}
use tcp_port.Printer.Order.{Filed-Moves}

module _ (join : Bytes → Bytes → Bytes) (can_open : Bytes → Bool) where
  new_system-Ordered : (dir : Bytes) → Ordered (new_system dir)
  unfolding texts
  new_system-Ordered dir = record { bounded = omega arith; complete = refl }

  -- However the steps of the senders and of `run` are interleaved, the queue never has more than
  -- 8192 messages, and what stands on the console and what is in the queue make the messages sent,
  -- each once and in the order in which they were sent.
  pub Moves-Ordered :
      (dir : Bytes) (s : System) → Moves join can_open (new_system dir) s → Ordered s
  Moves-Ordered dir s ms =
      Ordered-Moves join can_open (new_system dir) s (new_system-Ordered dir) ms

  -- However the steps are interleaved, the file of a protocol, together with the messages of that
  -- protocol in the queue, has exactly the messages sent for it, in their order; provided that there
  -- is a directory for the files, the protocol has a name, and its file can be opened.
  pub Moves-Filed :
      (dir k : Bytes) (to_files : is_empty dir ≡ false) (named : is_empty k ≡ false)
      (opened : opens join can_open dir k ≡ true) (s : System)
      → Moves join can_open (new_system dir) s
      → Filed join can_open dir k to_files named opened s
  unfolding texts_of content
  Moves-Filed dir k to_files named opened s ms =
      Filed-Moves join can_open dir k to_files named opened (new_system dir) s
        (record { dir_kept = refl; filed = refl }) ms

  Moves-first :
      (s t u : System) → Move join can_open s t → Moves join can_open t u → Moves join can_open s u
  Moves-first s t _ m Moves.stay = Moves.then_move Moves.stay m
  Moves-first s t u m (Moves.then_move {t = v} ms n) = Moves.then_move (Moves-first s t v m ms) n

  abbrev drained : System → System
  drained s = record s { printer = run join can_open s.printer.output_queue s.printer }

  run-Moves :
      (queue : List PrinterMsg) (s : System)
      → s.printer.output_queue ≡ queue
      → Moves join can_open s (record s { printer = run join can_open queue s.printer })
  unfolding run write_message
  run-Moves [] s e = Moves.stay
  run-Moves (m ∷ queue) s e =
      let t = record s { printer = write_message join can_open m queue s.printer } in
      Moves-first s t _ (Move.write s m queue e) (run-Moves queue t refl)

  run-output_queue :
      (queue : List PrinterMsg) (p : MultiPrinter)
      → p.output_queue ≡ queue
      → (run join can_open queue p).output_queue ≡ []
  unfolding run write_message
  run-output_queue [] p e = e
  run-output_queue (m ∷ queue) p e =
      run-output_queue queue (write_message join can_open m queue p) refl

  -- From every state that the steps lead to, `run` can write all that was sent: further steps lead
  -- to a state where the queue is empty, nothing else was sent, and the console has the messages
  -- sent, each once and in their order.
  pub Moves-drained :
      (dir : Bytes) (s : System)
      → Moves join can_open (new_system dir) s
      → (t : System) × Moves join can_open s t
        × (t.printer.output_queue ≡ [])
        × (t.sent ≡ s.sent)
        × (t.printer.stdout ≡ texts s.sent)
  unfolding texts
  Moves-drained dir s ms =
      let t = drained s in
      let steps = run-Moves s.printer.output_queue s refl in
      let empty = run-output_queue s.printer.output_queue s.printer refl in
      let ends = Ordered-Moves join can_open s t (Moves-Ordered dir s ms) steps in
      (
        t,
        steps,
        empty,
        refl,
        sym (append-nil t.printer.stdout)
            ∙ (ap (λ q. t.printer.stdout ++ texts q) (sym empty) ∙ ends.complete),
      )
