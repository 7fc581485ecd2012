-- ===== src/Printer.antt =====
-- tcpport/multiprinter.go and tcpport/printer.go: the queue of messages, and the goroutine that
-- writes them.
pub mod Schedule
pub mod Order
pub mod Drain
use tcp_port.Base.{
  Bool, List, [], equal, false, if◌then◌else◌, length, true, ℕ, ◌++◌, ◌==◌, ◌||◌, ◌∷◌,
}
use tcp_port.Base.Outcome.{Outcome, ok, panic}
use tcp_port.Base.Slice.{Bytes}
use tcp_port.Base.Text.{codes}
use tcp_port.Tcp.Connection.{is_closed}

pub record PrinterMsg : Type 0 where
  pub protocol : Bytes
  pub message : Bytes

-- `MultiPrinter`: the channel as a list, and what was written to the console and to the files, which
-- are found by their protocols.
pub record MultiPrinter : Type 0 where
  pub output_queue : List PrinterMsg
  pub is_closed : Bool
  pub stdout : Bytes
  pub files : List (Bytes × Bytes)
  pub output_dir : Bytes

abbrev pub max_queue_len : ℕ
max_queue_len = 8192

-- `NewMultiPrinter`
abbrev pub new_multi_printer : Bytes → MultiPrinter
new_multi_printer dir = record {
  output_queue = [];
  is_closed = false;
  stdout = [];
  files = [];
  output_dir = dir;
}

-- The send on the channel, which has room.
abbrev pub enqueue : PrinterMsg → MultiPrinter → Outcome MultiPrinter
enqueue m p =
    if p.is_closed then panic else ok (record p { output_queue = p.output_queue ++ (m ∷ []) })

-- `Send`, when nothing happens between its test and its send.
unfoldable pub send : PrinterMsg → MultiPrinter → Outcome MultiPrinter
send m p = if length p.output_queue == max_queue_len then ok p else enqueue m p

-- `Finish`
unfoldable pub finish : MultiPrinter → Outcome MultiPrinter
finish p = if p.is_closed then panic else ok (record p { is_closed = true })

-- A write to the file of a protocol, which is made if it is not there and `opens`.
unfoldable pub append_file : Bool → Bytes → Bytes → List (Bytes × Bytes) → List (Bytes × Bytes)
append_file opens k t [] = if opens then (k, t) ∷ [] else []
append_file opens k t ((j, c) ∷ fs) =
    if equal j k then (j, c ++ t) ∷ fs else (j, c) ∷ append_file opens k t fs

abbrev pub is_empty : Bytes → Bool
is_empty [] = true
is_empty (c ∷ cs) = false

-- `join` is `filepath.Join`; `can_open` tells for which paths `os.OpenFile` succeeds, which is
-- taken not to change.
module _ (join : Bytes → Bytes → Bytes) (can_open : Bytes → Bool) where
  -- The file of a protocol can be made.
  unfoldable pub opens : Bytes → Bytes → Bool
  opens dir protocol = can_open (join dir (protocol ++ codes ".log"))

  -- `getFile` and the write to the file.
  unfoldable pub write_file : PrinterMsg → MultiPrinter → List (Bytes × Bytes)
  write_file m p =
      if is_empty p.output_dir || is_empty m.protocol
      then p.files
      else append_file (opens p.output_dir m.protocol) m.protocol m.message p.files

  -- One round of `run`, with a message of the queue.
  unfoldable pub write_message : PrinterMsg → List PrinterMsg → MultiPrinter → MultiPrinter
  write_message m queue p = record p {
    output_queue = queue;
    stdout = p.stdout ++ m.message;
    files = write_file m p;
  }

  -- `run`, up to the end of the queue `queue`.
  unfoldable pub run : List PrinterMsg → MultiPrinter → MultiPrinter
  run [] p = p
  run (m ∷ queue) p = run queue (write_message m queue p)

-- `Printer` of tcpport/printer.go: one file, and no protocols.
pub record Printer : Type 0 where
  pub output_queue : List Bytes
  pub is_closed : Bool
  pub output_file : Bytes

abbrev pub max_output_queue_len : ℕ
max_output_queue_len = 4096

unfoldable pub send_text : Bytes → Printer → Outcome Printer
send_text t p =
    if length p.output_queue == max_output_queue_len
    then ok p
    else if p.is_closed
    then panic
    else ok (record p { output_queue = p.output_queue ++ (t ∷ []) })

unfoldable pub run_text : List Bytes → Printer → Printer
run_text [] p = p
run_text (t ∷ queue) p =
    run_text queue (record p { output_queue = queue; output_file = p.output_file ++ t })

unfoldable pub finish_text : Printer → Outcome Printer
finish_text p = if p.is_closed then panic else ok (record p { is_closed = true })
