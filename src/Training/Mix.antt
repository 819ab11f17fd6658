-- ===== src/Training/Mix.antt =====
-- `weighted_mix` of tools/train_combined_routing.py. Floating-point numbers are a parameter; a target
-- that would be negative, for a negative weight, counts as 0, to the same effect.
use pocket_agents_lab.Random.{Rng}
use pocket_agents_lab.Prelude.{
  [], ◌∷◌, ℕ, ◌≡◌, ◌≤◌, ◌<◌, List, ◌++◌, length, min, max, ltb, if◌then◌else◌, Rearranges, sum_of,
  arith, Option, none, some, true, Perm-length, Perm-sum_of, length-append, sum_of-append, refl,
}

-- `rounded_product n w` is round(n * w), `none` where it raises, for a product that is infinite or
-- no number; `ratio a b` is a / b, `at_most_one x` is min(x, 1.0).
pub record Floats : Type 1 where
  pub Float : Type 0
  pub nought : Float
  pub one : Float
  pub rounded_product : ℕ → Float → Option ℕ
  pub ratio : ℕ → ℕ → Float
  pub at_most_one : Float → Float

module _ (f : Floats) where
  -- max_target / target if target > 0 else 0
  unfoldable pub scale : ℕ → ℕ → f.Float
  scale max_target target = if ltb 0 target then f.ratio max_target target else f.nought

  -- min(len(rows), round(len(rows) * min(scale, 1.0)))
  unfoldable pub taken : ℕ → f.Float → Option ℕ
  taken n s = elim (f.rounded_product n (f.at_most_one s)) [
    | none ↦ none
    | some rounded ↦ some (min n rounded)
  ]

  -- `phone_take` and `general_take`
  unfoldable pub takes : (phone_size general_size : ℕ) → f.Float → f.Float → Option (ℕ × ℕ)
  unfolding scale taken
  takes phone_size general_size phone_weight general_weight =
      elim (f.rounded_product phone_size phone_weight) [
        | none ↦ none
        | some phone_target ↦ elim (f.rounded_product general_size general_weight) [
          | none ↦ none
          | some general_target ↦
              let max_target = max phone_target general_target in
              elim (taken phone_size (scale max_target phone_target)) [
                | none ↦ none
                | some phone_take ↦ elim (taken general_size (scale max_target general_target)) [
                  | none ↦ none
                  | some general_take ↦ some (phone_take, general_take)
                ]
              ]
        ]
      ]

module _ (r : Rng) (Row : Type 0) where
  -- The two samples, shuffled together.
  pub draw : List Row → List Row → ℕ × ℕ → ℕ → List Row
  draw phone_rows general_rows (phone_take, general_take) seed =
      let (sampled_phone, s₁) = r.sample Row (r.seeded seed) phone_rows phone_take in
      let (sampled_general, s₂) = r.sample Row s₁ general_rows general_take in
      (r.shuffle Row s₂ (sampled_phone ++ sampled_general)).0

module _ (r : Rng) (f : Floats) (Row : Type 0) where
  -- The combined rows, and the counts of `actual`; `none` where a product cannot be rounded.
  unfoldable pub weighted_mix :
      List Row → List Row → f.Float → f.Float → ℕ → Option (List Row × ℕ × ℕ)
  unfolding takes draw
  weighted_mix phone_rows general_rows phone_weight general_weight seed =
      elim (takes f (length phone_rows) (length general_rows) phone_weight general_weight) [
        | none ↦ none
        | some (phone_take, general_take) ↦
            let combined = draw r Row phone_rows general_rows (phone_take, general_take) seed in
            some (combined, phone_take, general_take)
      ]

-- What floating-point arithmetic does with ratios of at least 1, and with the factor 1.
pub record IsExact (f : Floats) : Type 0 where
  pub capped : (a b : ℕ) → 0 < b → b ≤ a → f.at_most_one (f.ratio a b) ≡ f.one
  pub whole : (n : ℕ) → f.rounded_product n f.one ≡ some n

module _ (r : Rng) (Row : Type 0) where
  sum_of_nothing : (g : Row → ℕ) (rest : List Row) → length rest ≡ 0 → sum_of g rest ≡ 0
  sum_of_nothing g [] e = refl
  sum_of_nothing g (x ∷ rest) e = absurd (omega arith)

  -- A sample of all positions has all rows.
  sample_whole :
      (g : Row → ℕ) (s : r.State) (rows : List Row) (k : ℕ)
      → k ≡ length rows
      → sum_of g (r.sample Row s rows k).0 ≡ sum_of g rows
  sample_whole g s rows k whole =
      let (rest, size, perm) = r.sample-perm Row s rows k (omega arith) in
      omega (
        arith,
        size,
        Perm-length perm,
        length-append (r.sample Row s rows k).0 rest,
        sum_of_nothing g rest,
        Perm-sum_of g perm,
        sum_of-append g (r.sample Row s rows k).0 rest,
      )

  draw-whole :
      (phone_rows general_rows : List Row) (seed : ℕ)
      → Rearranges
          (draw r Row phone_rows general_rows (length phone_rows, length general_rows) seed)
          (phone_rows ++ general_rows)
  unfolding draw
  draw-whole phone_rows general_rows seed =
      let phone = r.sample Row (r.seeded seed) phone_rows (length phone_rows) in
      let general = r.sample Row phone.1 general_rows (length general_rows) in
      λ h. omega (
        arith,
        Perm-sum_of h (r.shuffle-perm Row general.1 (phone.0 ++ general.0)),
        sum_of-append h phone.0 general.0,
        sum_of-append h phone_rows general_rows,
        sample_whole h (r.seeded seed) phone_rows (length phone_rows) refl,
        sample_whole h phone.1 general_rows (length general_rows) refl,
      )

module _ (f : Floats) (exact : IsExact f) where
  taken-all : (n a b : ℕ) → 0 < b → b ≤ a → taken f n (scale f a b) ≡ some n
  unfolding taken scale
  taken-all n a b pos l =
      let positive : ltb 0 b ≡ true = ground arith in
      let whole : min n n ≡ n = omega arith in
      rw (taken, scale, positive, exact.capped a b pos l, exact.whole n, whole) refl

  takes-all :
      (phone_size general_size phone_target general_target : ℕ)
      (phone_weight general_weight : f.Float)
      → f.rounded_product phone_size phone_weight ≡ some phone_target
      → f.rounded_product general_size general_weight ≡ some general_target
      → 0 < phone_target
      → 0 < general_target
      → takes f phone_size general_size phone_weight general_weight
        ≡ some (phone_size, general_size)
  unfolding takes
  takes-all phone_size general_size phone_target general_target phone_weight general_weight p g
        phone_pos general_pos =
      let largest = max phone_target general_target in
      rw
        (
          takes,
          p,
          g,
          taken-all phone_size largest phone_target phone_pos (omega arith),
          taken-all general_size largest general_target general_pos (omega arith),
        )
        refl

module _ (r : Rng) (f : Floats) (exact : IsExact f) (Row : Type 0) where
  -- Where both targets can be rounded and are positive, and floating-point arithmetic is exact on
  -- the factor 1, the mixture is made and takes both sources in full, whatever the weights: it is
  -- a rearrangement of all rows.
  pub weighted_mix-Rearranges :
      (phone_rows general_rows : List Row) (phone_weight general_weight : f.Float)
      (phone_target general_target seed : ℕ)
      → f.rounded_product (length phone_rows) phone_weight ≡ some phone_target
      → f.rounded_product (length general_rows) general_weight ≡ some general_target
      → 0 < phone_target
      → 0 < general_target
      → (combined : List Row) × (weighted_mix r f Row phone_rows general_rows phone_weight
            general_weight seed
          ≡ some (combined, length phone_rows, length general_rows))
        × Rearranges combined (phone_rows ++ general_rows)
  unfolding weighted_mix
  weighted_mix-Rearranges phone_rows general_rows phone_weight general_weight phone_target
        general_target seed p g phone_pos general_pos =
      let all =
        takes-all f exact (length phone_rows) (length general_rows) phone_target general_target
          phone_weight general_weight p g phone_pos general_pos in
      (
        draw r Row phone_rows general_rows (length phone_rows, length general_rows) seed,
        rw (weighted_mix, all) refl,
        draw-whole r Row phone_rows general_rows seed,
      )
