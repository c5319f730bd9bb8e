-- ===== src/Float.antt =====
-- Python floats and frame times.
-- A `float` that the program only passes on or compares through the operations of the platform is
-- kept as its 64-bit pattern. Instants and durations are whole microseconds, the resolution of
-- `datetime` and `timedelta`; frame rates are whole frames per 1000 seconds.
use boars_head_compliance_de.Prelude.{ℕ, ◌*◌, Bool, leb}
use boars_head_compliance_de.Prelude.Int.{ℤ}

pub record Float : Type 0 where
  pub bits : ℕ

-- 0.0
abbrev pub zero_float : Float
zero_float = record { bits = 0 }

-- an instant in UTC, or a duration, in microseconds
abbrev pub Micros : Type 0
Micros = ℕ

abbrev pub seconds : ℕ → Micros
seconds n = n * 1000000

-- frames per 1000 seconds
abbrev pub Fps : Type 0
Fps = ℕ

-- frames / fps <= limit, for fps > 0
abbrev pub lasts_at_most : ℕ → Fps → Micros → Bool
lasts_at_most frames fps limit = leb (frames * 1000000000) (fps * limit)

-- The float operations of Python that the program calls: they are not its own code.
pub record FloatOps : Type 0 where
  pub add : Float → Float → Float
  pub sub : Float → Float → Float
  pub mul : Float → Float → Float
  pub div : Float → Float → Float
  pub sqrt : Float → Float
  pub lt : Float → Float → Bool
  pub le : Float → Float → Bool
  pub eq : Float → Float → Bool
  -- float(n), int(x), float("inf"), and the float of the decimal fraction n / d
  pub of_int : ℤ → Float
  pub to_int : Float → ℤ
  pub infinity : Float
  pub fraction : ℕ → ℕ → Float
