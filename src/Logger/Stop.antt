-- ===== src/Logger/Stop.antt =====
-- The end of the logger of src/core/logger.cpp: what is in its queue when it is destroyed.
use lightapr.Prelude.{
  ℕ, suc, ◌+◌, ◌≡◌, refl, ◌∙◌, false, some, List, [], ◌∷◌, ◌++◌, ◌⊎◌, inl, inr, arith,
}
use lightapr.Prelude.Int.{pos, ◌-ℤ◌, int_laws}
use lightapr.Memory.{add_other_bytes}
use lightapr.Logger.{
  AsyncLogger, LogMessage, Sink, Disk, write_entry, write_all, estimate_log_message_bytes, swap,
  discount, write_front, drain, worker_loop, closed, destroy,
}

-- The messages with what the file system does at each.
unfoldable pub with_disk : (Sink → Disk) → Sink → List LogMessage → List (Disk × LogMessage)
with_disk disk s [] = []
with_disk disk s (m ∷ ms) = (disk s, m) ∷ with_disk disk (write_entry (disk s) s m) ms

List-cases {ℓ} : {A : Type ℓ} (xs : List A) → (xs ≡ []) ⊎ ((y : A) × (ys : List A) × (xs ≡ y ∷ ys))
List-cases [] = inl refl
List-cases (y ∷ ys) = inr (y, ys, refl)

module _ (message_size : ℕ) where
  unfoldable pub total_bytes : List LogMessage → ℕ
  total_bytes [] = 0
  total_bytes (m ∷ ms) = estimate_log_message_bytes message_size m + total_bytes ms

  pub total_bytes-append :
      (ms ns : List LogMessage) → total_bytes (ms ++ ns) ≡ total_bytes ms + total_bytes ns
  unfolding total_bytes
  total_bytes-append [] ns = omega arith
  total_bytes-append (m ∷ ms) ns = omega (arith, total_bytes-append ms ns)

module _ (message_size : ℕ) (disk : Sink → Disk) where
  drain-sink :
      (ms : List LogMessage) (l : AsyncLogger)
      → (drain message_size disk ms l).sink ≡ write_all l.sink (with_disk disk l.sink ms)
  unfolding drain write_all with_disk write_front discount
  drain-sink [] l = refl
  drain-sink (m ∷ ms) l = drain-sink ms (write_front (disk l.sink) (discount message_size l m) m ms)

  drain-queue :
      (ms : List LogMessage) (l : AsyncLogger)
      → ((drain message_size disk ms l).queue ≡ l.queue)
        × ((drain message_size disk ms l).running ≡ l.running)
  unfolding drain write_front discount
  drain-queue [] l = (refl, refl)
  drain-queue (m ∷ ms) l =
      drain-queue ms (write_front (disk l.sink) (discount message_size l m) m ms)

  drain-memory :
      (ms : List LogMessage) (l : AsyncLogger)
      → (drain message_size disk ms l).memory.other_bytes
        ≡ l.memory.other_bytes -ℤ pos (total_bytes message_size ms)
  unfolding drain write_front discount total_bytes add_other_bytes
  drain-memory [] l = omega int_laws
  drain-memory (m ∷ ms) l =
      let ih = drain-memory ms (write_front (disk l.sink) (discount message_size l m) m ms) in
      ih ∙ omega int_laws

  with_disk-append :
      (ms ns : List LogMessage) (s : Sink)
      → write_all s (with_disk disk s (ms ++ ns))
        ≡ (let t = write_all s (with_disk disk s ms) in write_all t (with_disk disk t ns))
  unfolding write_all with_disk
  with_disk-append [] ns s = refl
  with_disk-append (m ∷ ms) ns s = with_disk-append ms ns (write_entry (disk s) s m)

  empty_queue :
      (fuel : ℕ) (l : AsyncLogger)
      → l.queue ≡ []
      → l.running ≡ false
      → worker_loop message_size disk (suc fuel) l ≡ some l
  unfolding worker_loop
  empty_queue fuel l e h = ground (arith, e, h)

  full_queue :
      (fuel : ℕ) (l : AsyncLogger) (m : LogMessage) (ms : List LogMessage)
      → l.queue ≡ m ∷ ms
      → worker_loop message_size disk (suc fuel) l
        ≡ worker_loop message_size disk fuel (drain message_size disk l.queue (swap l))
  unfolding worker_loop
  full_queue fuel l m ms e = ground (arith, e)

  -- A worker that is stopped writes its queue in a turn or none, and ends.
  worker_loop-stopped :
      (fuel : ℕ) (l : AsyncLogger)
      → l.running ≡ false
      → (l' : AsyncLogger) × (worker_loop message_size disk (suc (suc fuel)) l ≡ some l')
        × (l'.queue ≡ [])
        × (l'.sink ≡ write_all l.sink (with_disk disk l.sink l.queue))
        × (l'.memory.other_bytes ≡ l.memory.other_bytes -ℤ pos (total_bytes message_size l.queue))
  unfolding swap write_all with_disk total_bytes
  worker_loop-stopped fuel l h = elim (List-cases l.queue) [
    | inl e ↦ (l, empty_queue (suc fuel) l e h, e, rw e refl, rw e (omega int_laws))
    | inr (m, ms, e) ↦
        let l' = drain message_size disk l.queue (swap l) in
        let kept = drain-queue l.queue (swap l) in
        (
          l',
          full_queue (suc fuel) l m ms e ∙ empty_queue fuel l' kept.0 (kept.1 ∙ h),
          kept.0,
          drain-sink l.queue (swap l),
          drain-memory l.queue (swap l),
        )
  ]

  -- Whatever the worker has left to write when the logger is destroyed, of its own queue and of the
  -- shared one, is written in its order before the file is closed, in two turns of the outer loop at
  -- most; nothing is left in the queue, and the gauge goes back by the bytes of these messages.
  pub destroy-write_all :
      (fuel : ℕ) (l : AsyncLogger)
      → let left = l.local ++ l.queue in
        (l' : AsyncLogger) × (destroy message_size disk (suc (suc fuel)) l ≡ some l')
        × (l'.queue ≡ [])
        × (l'.sink ≡ closed (write_all l.sink (with_disk disk l.sink left)))
        × (l'.memory.other_bytes ≡ l.memory.other_bytes -ℤ pos (total_bytes message_size left))
  unfolding destroy
  destroy-write_all fuel l =
      let stopped = record l { running = false } in
      let mid = drain message_size disk l.local stopped in
      let kept = drain-queue l.local stopped in
      let (l', e, none_left, sink, bytes) = worker_loop-stopped fuel mid kept.1 in
      (
        record l' { sink = closed l'.sink },
        rw (destroy, e) refl,
        none_left,
        rw (sink, drain-sink l.local stopped, kept.0)
            (rw (with_disk-append l.local l.queue l.sink) refl),
        bytes
            ∙ rw
                (
                  drain-memory l.local stopped,
                  kept.0,
                  total_bytes-append message_size l.local l.queue,
                )
                (omega int_laws),
      )
