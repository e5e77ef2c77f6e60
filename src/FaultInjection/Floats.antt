-- ===== src/FaultInjection/Floats.antt =====
-- Go's float64, as far as dynamic-fault-injection computes with it: an interface without laws, so that what
-- is proved holds under any rounding. Durations and counts are integers, which are taken not to overflow.
use built_on_envoy.Prelude.{Bool, Option, Bytes}
use built_on_envoy.Prelude.Int.{ℤ}

pub record Floats : Type 1 where
  pub Float : Type 0
  -- float64(n), and int64(x)
  pub of_int : ℤ → Float
  pub to_int : Float → ℤ
  pub sub : Float → Float → Float
  pub mul : Float → Float → Float
  pub div : Float → Float → Float
  pub min : Float → Float → Float
  pub max : Float → Float → Float
  -- `<`, `<=` and `==`
  pub lt : Float → Float → Bool
  pub le : Float → Float → Bool
  pub eq : Float → Float → Bool
  -- strconv.ParseFloat
  pub parse_float : Bytes → Option Float

-- A quantile and its duration.
pub record Percentile (F : Floats) : Type 0 where
  pub quantile : F.Float
  pub duration : ℤ
