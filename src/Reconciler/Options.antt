-- ===== src/Reconciler/Options.antt =====
-- The intervals of the reconciler, in nanoseconds (time.Duration, an int64: the code only compares
-- them with 0 and copies them, so no operation here can overflow).
use upcloud_operator.Prelude.{ℕ, zero, suc, ◌*◌, Bool, true, false, if◌then◌else◌}

-- `negsuc n` is -(n + 1).
pub data ℤ : Type 0 where
  pos : ℕ → ℤ
  negsuc : ℕ → ℤ

abbrev pub is_zero : ℤ → Bool
is_zero (pos zero) = true
is_zero _ = false

abbrev pub is_positive : ℤ → Bool
is_positive (pos zero) = false
is_positive (pos (suc n)) = true
is_positive (negsuc n) = false

abbrev pub seconds : ℕ → ℤ
seconds n = pos (n * 1_000_000_000)

pub record Intervals : Type 0 where
  pub pending_requeue : ℤ
  pub dependency_requeue : ℤ
  pub steady_requeue : ℤ

-- Options
pub record Options : Type 0 where
  pub steady_requeue : ℤ

-- defaults
unfoldable pub defaults : Intervals → Intervals
defaults r = record {
  pending_requeue = if is_zero r.pending_requeue then seconds 15 else r.pending_requeue;
  dependency_requeue = if is_zero r.dependency_requeue then seconds 15 else r.dependency_requeue;
  steady_requeue = if is_zero r.steady_requeue then seconds 300 else r.steady_requeue;
}

-- ApplyOptions
unfoldable pub apply_options : Intervals → Options → Intervals
apply_options r o =
    if is_positive o.steady_requeue then record r { steady_requeue = o.steady_requeue } else r
