-- ===== src/Printer/Order.antt =====
-- What comes out of a `MultiPrinter` (tcpport/multiprinter.go), whatever the order of the steps.
use tcp_port.Base.{List, [], ap, append-nil, equal, if◌then◌else◌, ◌++◌, ◌∙◌, ◌∷◌, ◌≡◌}
use tcp_port.Base.Slice.{Bytes}
use tcp_port.Printer.{PrinterMsg}
use tcp_port.Base.{Bool, Bool-cases, append_assoc, arith, false, inl, inr, refl, true}
use tcp_port.Printer.{append_file, opens}
use tcp_port.Base.{equal_iff, length, ◌≤◌}
use tcp_port.Printer.{finish, max_queue_len, write_message}
use tcp_port.Printer.Schedule.{Move, System}
use tcp_port.Base.{length-append, ◌<◌}
use tcp_port.Base.Outcome.{ok}
use tcp_port.Printer.{MultiPrinter, enqueue}
use tcp_port.Printer.{is_empty, write_file}
use tcp_port.Printer.Schedule.{Moves}
use tcp_port.Base.{ap₂}
use tcp_port.Base.{sym}

-- The texts of messages, one after the other; and of those of a protocol.
unfoldable pub texts : List PrinterMsg → Bytes
texts [] = []
texts (m ∷ ms) = m.message ++ texts ms

unfoldable pub texts_of : Bytes → List PrinterMsg → Bytes
texts_of k [] = []
texts_of k (m ∷ ms) = (if equal m.protocol k then m.message else []) ++ texts_of k ms

-- What stands in the file of a protocol.
unfoldable pub content : Bytes → List (Bytes × Bytes) → Bytes
content k [] = []
content k ((j, c) ∷ fs) = if equal j k then c else content k fs

texts-append :
    (ms : List PrinterMsg) (m : PrinterMsg) → texts (ms ++ (m ∷ [])) ≡ texts ms ++ m.message
unfolding texts
texts-append [] m = append-nil m.message
texts-append (n ∷ ms) m = simp (texts-append ms m, append_assoc) refl

texts_of-append :
    (k : Bytes) (ms : List PrinterMsg) (m : PrinterMsg)
    → texts_of k (ms ++ (m ∷ [])) ≡ texts_of k ms ++ (if equal m.protocol k then m.message else [])
unfolding texts_of
texts_of-append k [] m = append-nil (if equal m.protocol k then m.message else [])
texts_of-append k (n ∷ ms) m = simp (texts_of-append k ms m, append_assoc) refl

-- A write to one file leaves the others as they are.
content-append_file :
    (opens : Bool) (k j t : Bytes) (fs : List (Bytes × Bytes))
    → (equal j k ≡ true → opens ≡ true)
    → content k (append_file opens j t fs) ≡ content k fs ++ (if equal j k then t else [])
unfolding content append_file
content-append_file true k j t [] h = ground arith
content-append_file false k j t [] h = ground arith
content-append_file opens k j t ((i, c) ∷ fs) h = ground (
  arith,
  equal_iff i j,
  equal_iff i k,
  equal_iff j k,
  append-nil c,
  append-nil (content k fs),
  content-append_file opens k j t fs h,
)

enqueue-ok :
    (m : PrinterMsg) (q p : MultiPrinter)
    → enqueue m q ≡ ok p
    → p ≡ record q { output_queue = q.output_queue ++ (m ∷ []) }
enqueue-ok m q p h = ground arith

finish-ok : (q p : MultiPrinter) → finish q ≡ ok p → p ≡ record q { is_closed = true }
unfolding finish
finish-ok q p h = ground arith

-- What holds of every state: the queue keeps to its length, and what was written to the console
-- and what is in the queue make what was sent.
pub record Ordered (s : System) : Type 0 where
  pub bounded : length s.printer.output_queue ≤ max_queue_len
  pub complete : s.printer.stdout ++ texts s.printer.output_queue ≡ texts s.sent

module _ (join : Bytes → Bytes → Bytes) (can_open : Bytes → Bool) where
  enter-Ordered :
      (s : System) (before after : List PrinterMsg) (m : PrinterMsg) (ready : List PrinterMsg)
      → Ordered s
      → length s.printer.output_queue < max_queue_len
      → Ordered (record {
        printer = record s.printer { output_queue = s.printer.output_queue ++ (m ∷ []) };
        ready = ready;
        sent = s.sent ++ (m ∷ []);
      })
  enter-Ordered s before after m ready h room = record {
    bounded = omega (arith, length-append s.printer.output_queue (m ∷ []), room);
    complete = ground (
      arith,
      texts-append s.printer.output_queue m,
      texts-append s.sent m,
      append_assoc s.printer.stdout (texts s.printer.output_queue) m.message,
      h.complete,
    );
  }

  Ordered-Move : (s t : System) → Ordered s → Move join can_open s t → Ordered t
  unfolding write_message finish texts
  Ordered-Move _ _ h (Move.pass s m n) = record { bounded = h.bounded; complete = h.complete }
  Ordered-Move _ _ h (Move.enter s before after m p e room sent) =
      rw (enqueue-ok m s.printer p sent) (enter-Ordered s before after m (before ++ after) h room)
  Ordered-Move _ _ h (Move.write s m queue e) = record {
    bounded = omega (arith, ap length e, h.bounded);
    complete =
        ground
          (arith, append_assoc s.printer.stdout m.message (texts queue), h.complete, ap texts e);
  }
  Ordered-Move _ _ h (Move.close s p e) =
      rw (finish-ok s.printer p e) (record { bounded = h.bounded; complete = h.complete })

  pub Ordered-Moves : (s t : System) → Ordered s → Moves join can_open s t → Ordered t
  Ordered-Moves s _ h Moves.stay = h
  Ordered-Moves s u h (Moves.then_move {t} ms mv) = Ordered-Move t u (Ordered-Moves s t h ms) mv

  -- The same for the file of the protocol `k`, which can be made.
  module _ (dir k : Bytes) (to_files : is_empty dir ≡ false) (named : is_empty k ≡ false)
      (opened : opens join can_open dir k ≡ true) where
    pub record Filed (s : System) : Type 0 where
      pub dir_kept : s.printer.output_dir ≡ dir
      pub filed : content k s.printer.files ++ texts_of k s.printer.output_queue ≡ texts_of k s.sent

    content-write_file :
        (m : PrinterMsg) (p : MultiPrinter)
        → p.output_dir ≡ dir
        → content k (write_file join can_open m p)
          ≡ content k p.files ++ (if equal m.protocol k then m.message else [])
    unfolding write_file
    content-write_file m p e =
        let opens_it : equal m.protocol k ≡ true
            → opens join can_open p.output_dir m.protocol ≡ true =
          λ same. ap₂ (opens join can_open) e ((equal_iff m.protocol k).0 same) ∙ opened in
        let in_dir : is_empty p.output_dir ≡ false = ap is_empty e ∙ to_files in
        elim (Bool-cases (is_empty m.protocol)) [
          | inl x ↦
              let other : equal m.protocol k ≡ false = ground (arith, x, equal_iff m.protocol k) in
              rw (in_dir, x, other) (sym (append-nil (content k p.files)))
          | inr y ↦
              rw (in_dir, y)
                (content-append_file (opens join can_open p.output_dir m.protocol) k m.protocol
                  m.message p.files opens_it)
        ]

    enter-Filed :
        (s : System) (m : PrinterMsg) (ready : List PrinterMsg)
        → Filed s
        → Filed (record {
          printer = record s.printer { output_queue = s.printer.output_queue ++ (m ∷ []) };
          ready = ready;
          sent = s.sent ++ (m ∷ []);
        })
    enter-Filed s m ready h =
        let t = if equal m.protocol k then m.message else [] in
        record {
          dir_kept = h.dir_kept;
          filed = ground (
            arith,
            texts_of-append k s.printer.output_queue m,
            texts_of-append k s.sent m,
            append_assoc (content k s.printer.files) (texts_of k s.printer.output_queue) t,
            h.filed,
          );
        }

    write-Filed :
        (s : System) (m : PrinterMsg) (queue : List PrinterMsg)
        → Filed s
        → s.printer.output_queue ≡ m ∷ queue
        → Filed (record s { printer = write_message join can_open m queue s.printer })
    unfolding write_message texts_of
    write-Filed s m queue h e =
        let t = if equal m.protocol k then m.message else [] in
        record {
          dir_kept = h.dir_kept;
          filed = ground (
            arith,
            content-write_file m s.printer h.dir_kept,
            append_assoc (content k s.printer.files) t (texts_of k queue),
            h.filed,
            ap (texts_of k) e,
          );
        }

    Filed-Move : (s t : System) → Filed s → Move join can_open s t → Filed t
    unfolding finish
    Filed-Move _ _ h (Move.pass s m n) = record { dir_kept = h.dir_kept; filed = h.filed }
    Filed-Move _ _ h (Move.enter s before after m p e room sent) =
        rw (enqueue-ok m s.printer p sent) (enter-Filed s m (before ++ after) h)
    Filed-Move _ _ h (Move.write s m queue e) = write-Filed s m queue h e
    Filed-Move _ _ h (Move.close s p e) =
        rw (finish-ok s.printer p e) (record { dir_kept = h.dir_kept; filed = h.filed })

    pub Filed-Moves : (s t : System) → Filed s → Moves join can_open s t → Filed t
    Filed-Moves s _ h Moves.stay = h
    Filed-Moves s u h (Moves.then_move {t} ms mv) = Filed-Move t u (Filed-Moves s t h ms) mv
