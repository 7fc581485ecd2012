-- ===== src/Printer/Schedule.antt =====
-- The goroutines that send to a `MultiPrinter` (tcpport/multiprinter.go) and the one that writes, as
-- steps that may come in any order. A sender stands between the test of `Send` and its send.
use tcp_port.Base.{Bool, List, [], length, ◌++◌, ◌<◌, ◌∷◌, ◌≡◌, ◌≢◌}
use tcp_port.Base.Outcome.{ok}
use tcp_port.Base.Slice.{Bytes}
use tcp_port.Printer.{
  MultiPrinter, PrinterMsg, enqueue, finish, max_queue_len, new_multi_printer, write_message,
}

-- `ready` are the messages that passed the test, `sent` those that were sent, in their order.
pub record System : Type 0 where
  pub printer : MultiPrinter
  pub ready : List PrinterMsg
  pub sent : List PrinterMsg

abbrev pub new_system : Bytes → System
new_system dir = record { printer = new_multi_printer dir; ready = []; sent = [] }

module _ (join : Bytes → Bytes → Bytes) (can_open : Bytes → Bool) where
  -- The steps: a message passes the test of `Send`; a message that passed is sent, when the channel
  -- is open and has room; the first message of the queue is written; the channel is closed.
  pub data Move : System → System → Type 0 where
    pass :
        (s : System) (m : PrinterMsg)
        → length s.printer.output_queue ≢ max_queue_len
        → Move s (record s { ready = m ∷ s.ready })
    enter :
        (s : System) (before after : List PrinterMsg) (m : PrinterMsg) (p : MultiPrinter)
        → s.ready ≡ before ++ (m ∷ after)
        → length s.printer.output_queue < max_queue_len
        → enqueue m s.printer ≡ ok p
        → Move s (record { printer = p; ready = before ++ after; sent = s.sent ++ (m ∷ []) })
    write :
        (s : System) (m : PrinterMsg) (queue : List PrinterMsg)
        → s.printer.output_queue ≡ m ∷ queue
        → Move s (record s { printer = write_message join can_open m queue s.printer })
    close :
        (s : System) (p : MultiPrinter)
        → finish s.printer ≡ ok p
        → Move s (record s { printer = p })

  -- The states that the steps lead to from one state.
  pub data Moves (s : System) : System → Type 0 where
    stay : Moves s s
    then_move : {t u : System} → Moves s t → Move t u → Moves s u
