-- ===== src/Daemon/Sweeping.antt =====
-- The sweep timer of src/main.cpp, beside the calls that the sessions make to the registry.
use lightapr.Prelude.{ℕ, ◌+◌, Bool, List, [], ◌∷◌, if◌then◌else◌}
use lightapr.Prelude.Text.{Text}
use lightapr.Registry.{Registry}
use lightapr.Registry.Updates.{sweep_expired_nodes}
use lightapr.Registry.Validity.{Command, exec}

-- The registry, and the time that the timer is set for.
pub record Sweeper (V : Type 0) : Type 0 where
  pub registry : Registry V
  pub expires : ℕ

-- A call to the registry, or the end of a wait of the timer and whether it ended with an error.
pub data Happening (V : Type 0) : Type 0 where
  call : Command V → Happening V
  timer : Bool → Happening V

-- The timer is set for five seconds.
abbrev pub sweep_interval : ℕ
sweep_interval = 5

unfoldable pub new_sweeper : {V : Type 0} → Registry V → ℕ → Sweeper V
new_sweeper r now = record { registry = r; expires = now + sweep_interval }

module _ {V : Type 0} (dump : V → Text) (max_bytes node_size : ℕ) where
  -- After an error the timer is not set again.
  unfoldable pub do_sweep : Sweeper V → Bool → ℕ → Sweeper V
  do_sweep s ec now = if ec then s else record {
    registry = (sweep_expired_nodes dump node_size s.registry now).0;
    expires = now + sweep_interval;
  }

  unfoldable pub step : Sweeper V → Happening V → ℕ → Sweeper V
  step s (call d) now = record s { registry = exec dump max_bytes node_size s.registry d }
  step s (timer ec) now = do_sweep s ec now

  -- What happens, one after the other, each with the time.
  unfoldable pub run : Sweeper V → List (Happening V × ℕ) → Sweeper V
  run s [] = s
  run s ((h, now) ∷ hs) = run (step s h now) hs
