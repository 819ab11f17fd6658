-- ===== src/Random.antt =====
-- Python's `random.Random`, as the programs of tools/ use it: seeded, passed from call to call, and
-- asked to shuffle a list in place or to sample from one. The generator itself is not modelled: a
-- shuffled list is some rearrangement of it, a sample of k some k of its positions, each at most
-- once.
use mathlib.Core.List.{Perm}
use pocket_agents_lab.Prelude.{ℕ, ◌≤◌, ◌≡◌, List, ◌++◌, length}

pub record Rng : Type 1 where
  pub State : Type 0
  pub seeded : ℕ → State
  pub shuffle : (A : Type 0) → State → List A → List A × State
  pub shuffle-perm : (A : Type 0) (s : State) (xs : List A) → Perm (shuffle A s xs).0 xs
  pub sample : (A : Type 0) → State → List A → ℕ → List A × State
  pub sample-perm :
      (A : Type 0) (s : State) (xs : List A) (k : ℕ)
      → k ≤ length xs
      → (rest : List A) × (length (sample A s xs k).0 ≡ k) × Perm ((sample A s xs k).0 ++ rest) xs
