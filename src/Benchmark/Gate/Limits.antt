-- ===== src/Benchmark/Gate/Limits.antt =====
-- tools/benchmark_decision_android.py: the limits of the thermal gate, in numbers.
use pocket_agents_lab.Prelude.{
  ℕ, ◌≤◌, ◌<◌, true, false, ◌&&◌, Option, none, some, ◌≡◌, ◌⊎◌, refl, arith,
}
use pocket_agents_lab.Benchmark.Telemetry.{Reading}
use pocket_agents_lab.Benchmark.Gate.{is_verified, is_cool, is_present}

-- Both readings are there, and within the limits.
abbrev pub IsCool : Reading → Type 0
IsCool before =
    (t : ℕ) × (s : ℕ) × (before.temperature ≡ some t)
    × (before.status ≡ some s)
    × (t ≤ 380)
    × (s ≤ 1)

-- Both readings are there, and one is beyond its limit.
abbrev pub IsHot : Reading → Type 0
IsHot before =
    (t : ℕ) × (s : ℕ) × (before.temperature ≡ some t)
    × (before.status ≡ some s)
    × ((380 < t) ⊎ (1 < s))

readings :
    (temperature status : Option ℕ)
    → (is_present temperature && is_present status) ≡ true
    → (t : ℕ) × (s : ℕ) × (temperature ≡ some t) × (status ≡ some s)
readings none status h = absurd cc
readings (some t) none h = absurd cc
readings (some t) (some s) h = (t, s, refl, refl)

module _ (before : Reading) where
  pub is_cool-IsCool : is_verified before ≡ true → is_cool before ≡ true → IsCool before
  is_cool-IsCool verified cool =
      let (t, s, temperature, status) = readings before.temperature before.status verified in
      let limits = rw (temperature, status) at cool in
      (t, s, temperature, status, ground arith, ground arith)

  pub is_cool-IsHot : is_verified before ≡ true → is_cool before ≡ false → IsHot before
  is_cool-IsHot verified hot =
      let (t, s, temperature, status) = readings before.temperature before.status verified in
      let limits = rw (temperature, status) at hot in (t, s, temperature, status, ground arith)

  pub cool_passes : IsCool before → (is_verified before ≡ true) × (is_cool before ≡ true)
  cool_passes (t, s, temperature, status, t_le, s_le) =
      (rw (temperature, status) refl, rw (temperature, status) (ground arith))

  pub hot_waits : IsHot before → (is_verified before ≡ true) × (is_cool before ≡ false)
  hot_waits (t, s, temperature, status, beyond) =
      (rw (temperature, status) refl, rw (temperature, status) (ground arith))
