-- ===== src/Mixture/Sample.antt =====
-- `weighted_sample` of tools/prepare_general_mixture.py. Floating-point numbers are a parameter:
-- the test that a weight is finite and positive, `len(rows) / weight`, the smaller of two, and
-- `round(scale * weight)`, which raises for an infinite product.
pub mod Source
pub mod Laws
use pocket_agents_lab.Prelude.{
  ℕ, suc, Bool, true, false, not, ◌&&◌, ◌||◌, Option, none, some, String, List, [], ◌∷◌, ◌++◌, map,
  min, max, ltb, length, contains, Groups, group_by, group_of, group_names, sort_by, string_Eq,
  if◌then◌else◌, ◌=?◌,
}
use pocket_agents_lab.Random.{Rng}
use pocket_agents_lab.Mixture.{
  Row, Error, bad_weights, mixture_overflow, no_sources, missing_key, out_of_fuel, omits_classes,
  Result, ok, raise, ◌>>=◌, str_le,
}
use pocket_agents_lab.Mixture.Rounds.{rounds}

pub record Floats : Type 1 where
  pub Float : Type 0
  pub is_positive : Float → Bool
  pub per_weight : ℕ → Float → Float
  pub smaller : Float → Float → Float
  pub rounded_product : Float → Float → Option ℕ

-- a <= b, as sets
pub is_subset : List String → List String → Bool
is_subset [] ys = true
is_subset (x ∷ xs) ys = contains x ys && is_subset xs ys

pub lookup {ℓ} : {V : Type ℓ} → String → List (String × V) → Result V
lookup k [] = raise (missing_key k)
lookup k ((j, v) ∷ m) = if k =? j then ok v else lookup k m

abbrev pub names_of {ℓ} : {V : Type ℓ} → List (String × V) → List String
names_of = map (λ e. e.0)

-- The drawing of one source, after its count is known.
module _ (r : Rng) where
  -- for label in labels: rng.shuffle(groups[label])
  pub shuffle_groups : r.State → List String → Groups String Row → List (List Row) × r.State
  shuffle_groups s [] groups = ([], s)
  shuffle_groups s (label ∷ labels) groups =
      let (group, s₁) = r.shuffle Row s (group_of label groups) in
      let (others, s₂) = shuffle_groups s₁ labels groups in (group ∷ others, s₂)

  pub sampled_or_stuck : r.State → Option (List Row × List (List Row)) → Result (List Row × r.State)
  sampled_or_stuck s none = raise out_of_fuel
  sampled_or_stuck s (some (sampled, _)) = ok (sampled, s)

  unfoldable pub draw_source : r.State → String → List Row → ℕ → Result (List Row × r.State)
  unfolding shuffle_groups sampled_or_stuck rounds
  draw_source s source rows count =
      let groups = group_by (λ row. row.route_label) rows in
      let labels = sort_by str_le (group_names groups) in
      if ltb count (length labels)
      then raise (omits_classes source)
      else let (order, s₁) = r.shuffle String s labels in
        let (shuffled, s₂) = shuffle_groups s₁ order groups in
        sampled_or_stuck s₂ (rounds (suc count) count [] shuffled)

module _ (r : Rng) (f : Floats) where
  -- min(len(rows) / weights[name] for name, rows in sources.items())
  pub scale_of : List (String × f.Float) → List (String × List Row) → Result f.Float
  scale_of weights [] = raise no_sources
  scale_of weights ((name, rows) ∷ []) = do
    w ← lookup name weights
    ok (f.per_weight (length rows) w)
  scale_of weights ((name, rows) ∷ next ∷ sources) = do
    w ← lookup name weights
    others ← scale_of weights (next ∷ sources)
    ok (f.smaller (f.per_weight (length rows) w) others)

  pub product : f.Float → f.Float → Result ℕ
  product scale w = elim (f.rounded_product scale w) [
    | none ↦ raise mixture_overflow
    | some n ↦ ok n
  ]

  -- The loop over the sorted sources: the rows, `counts`, and the generator.
  pub draw_sources :
      r.State
      → f.Float
      → List (String × f.Float)
      → List (String × List Row)
      → Result (List Row × List (String × ℕ) × r.State)
  unfolding product draw_source
  draw_sources s scale weights [] = ok ([], [], s)
  draw_sources s scale weights ((source, rows) ∷ sources) = do
    w ← lookup source weights
    n ← product scale w
    let count = min (length rows) (max 1 n)
    (sampled, s₁) ← draw_source r s source rows count
    (result, counts, s₂) ← draw_sources s₁ scale weights sources
    ok (sampled ++ result, (source, count) ∷ counts, s₂)

  abbrev pub acceptable : List (String × List Row) → List (String × f.Float) → Bool
  acceptable sources weights =
      is_subset (names_of weights) (names_of sources)
      && is_subset (names_of sources) (names_of weights)
      && all_positive weights
    where
      all_positive : List (String × f.Float) → Bool
      all_positive [] = true
      all_positive ((_, w) ∷ ws) = f.is_positive w && all_positive ws

  unfoldable pub weighted_sample :
      List (String × List Row) → List (String × f.Float) → ℕ → Result (List Row × List (String × ℕ))
  unfolding draw_sources scale_of lookup is_subset
  weighted_sample sources weights seed =
      if not (acceptable sources weights) then raise bad_weights else do
        scale ← scale_of weights sources
        (drawn, counts, s) ←
            draw_sources (r.seeded seed) scale weights (sort_by (λ a b. str_le a.0 b.0) sources)
        ok ((r.shuffle Row s drawn).0, counts)
