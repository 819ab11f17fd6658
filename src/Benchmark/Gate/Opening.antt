-- ===== src/Benchmark/Gate/Opening.antt =====
-- tools/benchmark_decision_android.py: when the thermal gate opens.
use pocket_agents_lab.Prelude.{
  ℕ, ◌*◌, ◌≤◌, false, some, List, [], ◌∷◌, ◌++◌, All, ◌≡◌, ◌↔◌, inl, inr, refl, ltb, arith,
  Bool-cases, Option-cases, ◌∙◌, ap,
}
use pocket_agents_lab.Benchmark.Telemetry.{Reading}
use pocket_agents_lab.Benchmark.Gate.Limits.{
  IsCool, IsHot, is_cool-IsCool, is_cool-IsHot, cool_passes, hot_waits,
}
use pocket_agents_lab.Benchmark.Gate.{Probe, Gate, second, thermal_gate, is_verified, is_cool}

-- A probe after which the loop goes on: hot, verified, and within the thirty minutes.
abbrev pub Waits : Probe → Type 0
Waits probe =
    (before : Reading) × (probe.reading ≡ some before)
    × IsHot before
    × (probe.elapsed ≤ 1800 * second)

-- The probe that opens the gate, with those before it.
abbrev pub Opens : List Probe → Reading → ℕ → Type 0
Opens probes before cooldown =
    (earlier : List Probe) × (probe : Probe) × (rest : List Probe) × (probes
      ≡ earlier ++ (probe ∷ rest))
    × All Waits earlier
    × (probe.reading ≡ some before)
    × IsCool before
    × (probe.elapsed ≡ cooldown)

opens :
    (earlier : List Probe) (probe : Probe) (rest : List Probe) (before : Reading)
    → All Waits earlier
    → probe.reading ≡ some before
    → IsCool before
    → thermal_gate (earlier ++ (probe ∷ rest)) ≡ Gate.opened before probe.elapsed
unfolding thermal_gate
opens [] probe rest before waits read chill =
    let (good, cool) = cool_passes before chill in rw (read, good, cool) refl
opens (hot ∷ earlier) probe rest before ((level, seen, heat, within), waits) read chill =
    let (present, warm) = hot_waits level heat in
    let under : ltb (1800 * second) hot.elapsed ≡ false = ground arith in
    rw (seen, present, warm, under) (opens earlier probe rest before waits read chill)

opened_by :
    (probes : List Probe) (before : Reading) (cooldown : ℕ)
    → thermal_gate probes ≡ Gate.opened before cooldown
    → Opens probes before cooldown
unfolding thermal_gate
opened_by [] before cooldown h = absurd cc
opened_by (probe ∷ probes) before cooldown h = elim (Option-cases probe.reading) [
  | inl failed ↦ absurd (let gate = rw failed at h in cc)
  | inr (level, read) ↦ elim (Bool-cases (is_verified level)) [
    | inr bad ↦ absurd (let gate = rw (read, bad) at h in cc)
    | inl good ↦ elim (Bool-cases (is_cool level)) [
      | inl cool ↦
          let gate = rw (read, good, cool) at h in
          let same : level ≡ before = cc in
          (
            [],
            probe,
            probes,
            refl,
            tt,
            read ∙ ap some same,
            rw same at (is_cool-IsCool level good cool),
            cc,
          )
      | inr hot ↦ elim (Bool-cases (ltb (1800 * second) probe.elapsed)) [
        | inl over ↦ absurd (let gate = rw (read, good, hot, over) at h in cc)
        | inr under ↦
            let (earlier, last, rest, split, waits, seen, chill, time) =
              opened_by probes before cooldown (rw (read, good, hot, under) at h) in
            (
              probe ∷ earlier,
              last,
              rest,
              ap (λ xs. probe ∷ xs) split,
              ((level, read, is_cool-IsHot level good hot, ground arith), waits),
              seen,
              chill,
              time,
            )
      ]
    ]
  ]
]

-- The thermal gate opens with a reading and a waiting time exactly if there is a probe with these
-- that has both readings, at most 38 degrees and a status of at most 1, and all probes before it
-- had both readings, were hotter, and came within thirty minutes.
pub thermal_gate-Opens_iff :
    (probes : List Probe) (before : Reading) (cooldown : ℕ)
    → (thermal_gate probes ≡ Gate.opened before cooldown) ↔ Opens probes before cooldown
thermal_gate-Opens_iff probes before cooldown = (
  opened_by probes before cooldown,
  λ (earlier, probe, rest, split, waits, read, chill, time).
      rw split (opens earlier probe rest before waits read chill ∙ ap (Gate.opened before) time),
)
