-- ===== src/Accumulator/Tests.antt =====
-- Runs of the accumulator of include/apr/stream_accumulator.hpp.
use lightapr.Prelude.{ℕ, ◌≡◌, arith, List, [], ◌∷◌}
use lightapr.Accumulator.{Accumulator, new, view}
use lightapr.Accumulator.Refinement.{
  Op, appends, consumes, compacts, IsValid, model, run, run_model, view-run,
}

abbrev session : List (Op ℕ)
session = appends (1 ∷ 2 ∷ 3 ∷ []) ∷ consumes 2 ∷ compacts 2 ∷ appends (4 ∷ []) ∷ []

view-run_example :
    (view (run new session) ≡ run_model (view new) session) × IsValid (run new session)
unfolding new view IsValid model
view-run_example = view-run new session (omega arith) (omega arith, tt)

abbrev half_read : Accumulator ℕ
half_read = record { buf = 1 ∷ 2 ∷ 3 ∷ []; offset = 2 }
