-- ===== src/Benchmark/Gate.antt =====
-- tools/benchmark_decision_android.py, main: the thermal gate, the loop that waits for the phone to
-- cool. A probe is one round of the loop: what telemetry returns, `none` where it raises, and the
-- time since the loop began, in nanoseconds. The loop is run on a list of probes; it is `waiting`
-- where the list ends before the loop does.
pub mod Limits
pub mod Timing
pub mod Opening
use pocket_agents_lab.Prelude.{
  ℕ, suc, ◌+◌, ◌*◌, ◌≤◌, ◌<◌, Bool, true, false, ◌&&◌, Option, none, some, List, [], ◌∷◌,
  if◌then◌else◌, leb, ltb, length, ◌≡◌, ◌≢◌, arith, refl,
}
use pocket_agents_lab.Benchmark.Telemetry.{Reading}

pub record Probe : Type 0 where
  pub reading : Option Reading
  pub elapsed : ℕ

pub data Gate : Type 0 where
  opened : (before : Reading) → (cooldown : ℕ) → Gate
  unreadable : Gate
  unverified : Gate
  exceeded : Gate
  waiting : Gate

abbrev pub second : ℕ
second = 1000000000

abbrev pub is_present {ℓ} : {A : Type ℓ} → Option A → Bool
is_present none = false
is_present (some a) = true

abbrev pub at_most : ℕ → Option ℕ → Bool
at_most limit none = false
at_most limit (some n) = leb n limit

-- Neither reading is missing.
abbrev pub is_verified : Reading → Bool
is_verified before = is_present before.temperature && is_present before.status

-- At most 38 degrees, and a thermal status of at most 1.
abbrev pub is_cool : Reading → Bool
is_cool before = at_most 380 before.temperature && at_most 1 before.status

unfoldable pub thermal_gate : List Probe → Gate
thermal_gate [] = Gate.waiting
thermal_gate (probe ∷ probes) = elim probe.reading [
  | none ↦ Gate.unreadable
  | some before ↦
      if is_verified before
      then if is_cool before
        then Gate.opened before probe.elapsed
        else if ltb (1800 * second) probe.elapsed
        then Gate.exceeded
        else thermal_gate probes
      else Gate.unverified
]
