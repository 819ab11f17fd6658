-- ===== src/Benchmark/Gate/Timing.antt =====
-- tools/benchmark_decision_android.py: the loop of the thermal gate ends.
use pocket_agents_lab.Prelude.{
  ℕ, ◌+◌, ◌*◌, ◌≤◌, ◌<◌, List, [], ◌∷◌, ◌≢◌, inl, inr, ltb, length, arith, Bool-cases, Option-cases,
}
use pocket_agents_lab.Benchmark.Gate.{Probe, Gate, second, thermal_gate, is_verified, is_cool}

-- `time.sleep(10)` stands between two probes.
abbrev pub Paced : ℕ → List Probe → Type 0
Paced t [] = Unit
Paced t (probe ∷ probes) = (t ≤ probe.elapsed) × Paced (probe.elapsed + 10 * second) probes

ends_from :
    (t : ℕ) (probes : List Probe)
    → Paced t probes
    → 0 < length probes
    → 1810 * second < t + 10 * second * length probes
    → thermal_gate probes ≢ Gate.waiting
unfolding thermal_gate
ends_from t [] paced some_probe late = absurd (omega arith)
ends_from t (probe ∷ probes) paced some_probe late = elim (Option-cases probe.reading) [
  | inl failed ↦ rw failed λ e. cc
  | inr (before, read) ↦ elim (Bool-cases (is_verified before)) [
    | inr bad ↦ rw (read, bad) λ e. cc
    | inl good ↦ elim (Bool-cases (is_cool before)) [
      | inl cool ↦ rw (read, good, cool) λ e. cc
      | inr hot ↦ elim (Bool-cases (ltb (1800 * second) probe.elapsed)) [
        | inl over ↦ rw (read, good, hot, over) λ e. cc
        | inr under ↦
            rw (read, good, hot, under)
              (ends_from (probe.elapsed + 10 * second) probes paced.1 (ground arith) (ground arith))
      ]
    ]
  ]
]

-- With at least ten seconds from each probe to the next, the loop of the thermal gate has ended by
-- the 182nd probe.
pub thermal_gate-ends :
    (probes : List Probe)
    → Paced 0 probes
    → 182 ≤ length probes
    → thermal_gate probes ≢ Gate.waiting
thermal_gate-ends probes paced enough = ends_from 0 probes paced (omega arith) (omega arith)
