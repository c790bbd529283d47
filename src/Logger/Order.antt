-- ===== src/Logger/Order.antt =====
-- Threads that log while the worker of src/core/logger.cpp writes, in any interleaving.
use mathlib.Core.List.{map-append}
use lightapr.Prelude.{
  ℕ, ◌+◌, ◌≡◌, refl, sym, ap, ◌∙◌, Bool, true, false, List, [], ◌∷◌, ◌++◌, append_assoc, append-nil,
  arith, map,
}
use lightapr.Prelude.Int.{pos, ◌+ℤ◌, int_laws}
use lightapr.Memory.{add_other_bytes}
use lightapr.Logger.{
  AsyncLogger, LogMessage, Sink, Disk, write_entry, write_all, count, push, swap, discount,
  write_front,
}
use lightapr.Logger.Stop.{total_bytes, total_bytes-append}

-- The logger, the messages that threads have counted and not yet pushed, and whether the worker has
-- discounted the front of its queue and not yet written it.
pub record System : Type 0 where
  pub logger : AsyncLogger
  pub pending : List LogMessage
  pub discounted : Bool

abbrev pub message : Disk × LogMessage → LogMessage
message (d, m) = m

module _ (message_size : ℕ) where
  -- A step of a thread or of the worker, with the messages that it pushes and those that it writes.
  pub data Step : System → List LogMessage → List (Disk × LogMessage) → System → Type 0 where
    counts :
        (s : System) (m : LogMessage)
        → Step s [] []
            (record s { logger = count message_size s.logger m; pending = m ∷ s.pending })
    pushes :
        (s : System) (before after : List LogMessage) (m : LogMessage)
        → s.pending ≡ before ++ (m ∷ after)
        → Step s (m ∷ []) [] (record s { logger = push s.logger m; pending = before ++ after })
    swaps :
        (s : System)
        → s.discounted ≡ false
        → s.logger.local ≡ []
        → Step s [] [] (record s { logger = swap s.logger })
    discounts :
        (s : System) (m : LogMessage) (rest : List LogMessage)
        → s.discounted ≡ false
        → s.logger.local ≡ m ∷ rest
        → Step s [] [] (record s { logger = discount message_size s.logger m; discounted = true })
    writes :
        (s : System) (d : Disk) (m : LogMessage) (rest : List LogMessage)
        → s.discounted ≡ true
        → s.logger.local ≡ m ∷ rest
        → Step s []
            ((d, m) ∷ [])
            (record s { logger = write_front d s.logger m rest; discounted = false })
    stops : (s : System) → Step s [] [] (record s { logger = record s.logger { running = false } })

  -- The systems that steps come to from a logger that has nothing to write, with what was pushed
  -- and what was written on the way, in their order.
  pub data Reach (l : AsyncLogger)
      : List LogMessage → List (Disk × LogMessage) → System → Type 0 where
    start : Reach l [] [] (record { logger = l; pending = []; discounted = false })
    next :
        {pushed more : List LogMessage} {written now : List (Disk × LogMessage)} {s t : System}
        → Reach l pushed written s
        → Step s more now t
        → Reach l (pushed ++ more) (written ++ now) t

  -- What the gauge holds of the worker's queue.
  unfoldable pub counted : Bool → List LogMessage → ℕ
  counted true [] = 0
  counted true (m ∷ ms) = total_bytes message_size ms
  counted false ms = total_bytes message_size ms

  abbrev pub in_gauge : System → ℕ
  in_gauge s =
      total_bytes message_size s.pending
      + total_bytes message_size s.logger.queue
      + counted s.discounted s.logger.local

  counted-false :
      (b : Bool) (ms : List LogMessage) → b ≡ false → counted b ms ≡ total_bytes message_size ms
  unfolding counted
  counted-false true ms e = cc
  counted-false false ms e = refl

  counted-true :
      (b : Bool) (ms rest : List LogMessage) (m : LogMessage)
      → b ≡ true
      → ms ≡ m ∷ rest
      → counted b ms ≡ total_bytes message_size rest
  unfolding counted
  counted-true b ms rest m e f = rw (e, f) refl

  -- What is so after `pushed` was pushed and `written` was written, from the logger `l`.
  pub record IsOrdered (l : AsyncLogger) (pushed : List LogMessage)
      (written : List (Disk × LogMessage)) (s : System) : Type 0 where
    pub order : pushed ≡ map message written ++ (s.logger.local ++ s.logger.queue)
    pub sink : s.logger.sink ≡ write_all l.sink written
    pub gauge : s.logger.memory.other_bytes ≡ l.memory.other_bytes +ℤ pos (in_gauge s)

  write_all-append :
      (x : Sink) (ms ns : List (Disk × LogMessage))
      → write_all x (ms ++ ns) ≡ write_all (write_all x ms) ns
  unfolding write_all
  write_all-append x [] ns = refl
  write_all-append x ((d, m) ∷ ms) ns = write_all-append (write_entry d x m) ms ns

  Step-IsOrdered :
      {l : AsyncLogger} {pushed more : List LogMessage} {written now : List (Disk × LogMessage)}
      {s t : System}
      → Step s more now t
      → IsOrdered l pushed written s
      → IsOrdered l (pushed ++ more) (written ++ now) t
  unfolding count push swap discount write_front add_other_bytes counted total_bytes write_all
  Step-IsOrdered {l = l} {pushed = pushed} {written = written} (counts s m) p = record {
    order = rw (append-nil pushed, append-nil written) (p.order);
    sink = rw (append-nil written) (p.sink);
    gauge = rw (p.gauge) (omega int_laws);
  }
  Step-IsOrdered {l = l} {pushed = pushed} {written = written} (pushes s before after m e) p =
      record {
        order = rw (append-nil written) (rw (p.order) (simp append_assoc));
        sink = rw (append-nil written) (p.sink);
        gauge =
            p.gauge
            ∙ ap (λ (n : ℕ). l.memory.other_bytes +ℤ pos n)
                (omega (
                  arith,
                  ap (total_bytes message_size) e,
                  total_bytes-append message_size before (m ∷ after),
                  total_bytes-append message_size before after,
                  total_bytes-append message_size s.logger.queue (m ∷ []),
                ));
      }
  Step-IsOrdered {l = l} {pushed = pushed} {written = written} (swaps s idle e) p = record {
    order =
        rw (append-nil pushed, append-nil written)
          (p.order
            ∙ ap (λ (x : List LogMessage). map message written ++ (x ++ s.logger.queue)) e
            ∙ ap (λ (x : List LogMessage). map message written ++ x)
                (sym (append-nil s.logger.queue)));
    sink = rw (append-nil written) (p.sink);
    gauge =
        p.gauge
        ∙ ap (λ (n : ℕ). l.memory.other_bytes +ℤ pos n)
            (omega (
              arith,
              counted-false s.discounted s.logger.local idle,
              counted-false s.discounted s.logger.queue idle,
              ap (total_bytes message_size) e,
            ));
  }
  Step-IsOrdered {l = l} {pushed = pushed} {written = written} (discounts s m rest no_yet e) p =
      record {
        order = rw (append-nil pushed, append-nil written) (p.order);
        sink = rw (append-nil written) (p.sink);
        gauge = rw (p.gauge) (
            omega (
              int_laws,
              counted-false s.discounted s.logger.local no_yet,
              counted-true true s.logger.local rest m refl e,
              ap (total_bytes message_size) e,
            ));
      }
  Step-IsOrdered {l = l} {pushed = pushed} {written = written} (writes s d m rest done e) p =
      record {
        order = rw (append-nil pushed) (
            p.order
            ∙ ap (λ (x : List LogMessage). map message written ++ (x ++ s.logger.queue)) e
            ∙ rw (map-append, append_assoc) refl);
        sink =
            ap (λ (x : Sink). write_entry d x m) p.sink
            ∙ sym (write_all-append l.sink written ((d, m) ∷ []));
        gauge =
            p.gauge
            ∙ ap (λ (n : ℕ). l.memory.other_bytes +ℤ pos n)
                (omega (arith, counted-true s.discounted s.logger.local rest m done e));
      }
  Step-IsOrdered {l = l} {pushed = pushed} {written = written} (stops s) p = record {
    order = rw (append-nil pushed, append-nil written) (p.order);
    sink = rw (append-nil written) (p.sink);
    gauge = p.gauge;
  }

  -- Threads log in any number and interleaving while the worker writes, from a logger with nothing to
  -- write: what was pushed is, in its order, what was written, what the worker still has, and what is
  -- in the queue; the streams and files are those of writing that much in that order; and the gauge
  -- has moved by exactly the bytes of the messages that are counted and not yet discounted.
  pub Reach-IsOrdered :
      {l : AsyncLogger} {pushed : List LogMessage} {written : List (Disk × LogMessage)} {s : System}
      → l.local ≡ []
      → l.queue ≡ []
      → Reach l pushed written s
      → IsOrdered l pushed written s
  unfolding counted total_bytes write_all
  Reach-IsOrdered {l} no_local no_queue start = record {
    order = ground (arith, no_local, no_queue);
    sink = refl;
    gauge =
        omega (
          int_laws,
          ap (total_bytes message_size) no_local,
          ap (total_bytes message_size) no_queue,
        );
  }
  Reach-IsOrdered no_local no_queue (next r st) =
      Step-IsOrdered st (Reach-IsOrdered no_local no_queue r)
