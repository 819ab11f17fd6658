-- ===== src/Mixture/Compose/Cleaned.antt =====
-- What the composition of the steps promises of the three parts.
use pocket_agents_lab.Random.{Rng}
use pocket_agents_lab.Mixture.{Row, ok, >>=-eq-ok, str_le}
use pocket_agents_lab.Mixture.Clean.{Unicode, Reason, normalize, clean, clean_pool}
use pocket_agents_lab.Mixture.Split.{Splits, by_id}
use pocket_agents_lab.Mixture.Split.Laws.{all_rows, stratified_split-Rearranges}
use pocket_agents_lab.Mixture.Sample.{Floats, weighted_sample}
use pocket_agents_lab.Mixture.Sample.Laws.{weighted_sample-IsMixture}
use pocket_agents_lab.Mixture.Checks.{Final, check_final, IsFrozen, check_final-IsFrozen}
use pocket_agents_lab.Mixture.Compose.{
  alternate, was_trained, split_typed, split_source, split_pools, train_rows, val_rows, calib_rows,
  compose,
}
use pocket_agents_lab.Prelude.{
  ℕ, ◌+◌, ◌≤◌, Bool, not, String, List, [], ◌∷◌, ◌++◌, contains, list_Eq, nat_Eq, string_Eq, ◌=?◌,
  keep_if, if◌then◌else◌, ◌≡◌, refl, arith, sum_of, sum_of-append, Perm-sum_of, sort_by-perm,
  members, count_if, Bool-cases, inl, inr, length,
}

-- What a row counts for where the protected rows count for nothing.
abbrev allowed : Unicode → List (List ℕ) → (Row → ℕ) → Row → ℕ
allowed u protected g row = if contains (normalize u row.state) protected then 0 else g row

clean-sum :
    (key : Row → List ℕ) (protected seen : List (List ℕ)) (g : Row → ℕ) (rows : List Row)
    → sum_of g (clean key protected seen rows).0
      ≤ sum_of (λ row. if contains (key row) protected then 0 else g row) rows
unfolding clean
clean-sum key protected seen g [] = omega arith
clean-sum key protected seen g (row ∷ rows) =
    ground
      (arith, clean-sum key protected seen g rows, clean-sum key protected (key row ∷ seen) g rows)

alternate-sum :
    (g : Row → ℕ) (rows : List Row)
    → sum_of g (alternate rows).0 + sum_of g (alternate rows).1 ≡ sum_of g rows
unfolding alternate
alternate-sum g [] = refl
alternate-sum g (row ∷ rows) = omega (arith, alternate-sum g rows)

keep_if-sum :
    (g : Row → ℕ) (p : Row → Bool) (rows : List Row)
    → sum_of g (keep_if p rows) + sum_of g (keep_if (λ row. not (p row)) rows) ≡ sum_of g rows
keep_if-sum g p [] = refl
keep_if-sum g p (row ∷ rows) = ground (arith, keep_if-sum g p rows)

module _ (r : Rng) (u : Unicode) where
  split_typed-sum :
      (original : List (List ℕ)) (rows : List Row) (seed : ℕ) (g : Row → ℕ)
      → sum_of g (all_rows (split_typed r u original rows seed)) ≡ sum_of g rows
  unfolding split_typed
  split_typed-sum original rows seed g =
      let kept = keep_if (was_trained r u original) rows in
      let others = keep_if (λ row. not (was_trained r u original row)) rows in
      let (holdout, s) = r.shuffle Row (r.seeded seed) (by_id others) in
      omega (
        arith,
        keep_if-sum g (was_trained r u original) rows,
        alternate-sum g holdout,
        Perm-sum_of g (r.shuffle-perm Row (r.seeded seed) (by_id others)),
        Perm-sum_of g (sort_by-perm (λ (a b : Row). str_le a.id b.id) others),
        sum_of-append g kept ((alternate holdout).0 ++ (alternate holdout).1),
        sum_of-append g (alternate holdout).0 (alternate holdout).1,
      )

  split_source-sum :
      (original : List (List ℕ)) (source : String) (rows : List Row) (seed : ℕ) (split : Splits)
      (g : Row → ℕ)
      → split_source r u original source rows seed ≡ ok split
      → sum_of g (all_rows split) ≡ sum_of g rows
  unfolding split_source
  split_source-sum original source rows seed split g h =
      elim (Bool-cases (source =? "typed_decisions")) [
        | inl typed ↦
            let made = rw (split_source, typed) at h in
            let same : split_typed r u original rows seed ≡ split = cc in
            rw (← same) (split_typed-sum original rows seed g)
        | inr intent ↦
            stratified_split-Rearranges r rows seed split (rw (split_source, intent) at h) g
      ]

  -- All rows of the splits, by their parts.
  abbrev parts_sum : (Row → ℕ) → List (String × Splits) → ℕ
  parts_sum g splits =
      sum_of g (members (train_rows splits))
      + sum_of g (val_rows splits)
      + sum_of g (calib_rows splits)

  module _ (protected original : List (List ℕ)) (seed : ℕ) where
    split_pools-sum :
        (excluded : List (String × Reason)) (pools : List (String × List Row))
        (out : List (String × Splits) × List (String × Reason)) (g : Row → ℕ)
        → split_pools r u protected original seed excluded pools ≡ ok out
        → parts_sum g out.0 ≤ sum_of (allowed u protected g) (members pools)
    unfolding split_pools clean_pool
    split_pools-sum excluded [] out g h =
        let same : ([], excluded) ≡ out = cc in rw (← same) (omega arith)
    split_pools-sum excluded ((source, rows) ∷ pools) out g h =
        let (kept, more) = clean_pool u rows protected excluded in
        let (split, split_done, h₁) = >>=-eq-ok (split_source r u original source kept seed) _ h in
        let (rest, rest_done, h₂) =
          >>=-eq-ok (split_pools r u protected original seed more pools) _ h₁ in
        let same : ((source, split) ∷ rest.0, rest.1) ≡ out = cc in
        rw (← same) (
          omega (
            arith,
            clean-sum (λ (row : Row). normalize u row.state) protected [] g rows,
            split_source-sum original source kept seed split g split_done,
            split_pools-sum more pools rest g rest_done,
            sum_of-append g split.train (split.val ++ split.calibration),
            sum_of-append g split.val split.calibration,
            sum_of-append g split.train (members (train_rows rest.0)),
            sum_of-append g split.val (val_rows rest.0),
            sum_of-append g split.calibration (calib_rows rest.0),
            sum_of-append (allowed u protected g) rows (members pools),
          ))

abbrev pub is_protected : Unicode → List (List ℕ) → Row → Bool
is_protected u protected row = contains (normalize u row.state) protected

allowed-none :
    (u : Unicode) (protected : List (List ℕ)) (rows : List Row)
    → sum_of (allowed u protected (λ row. if is_protected u protected row then 1 else 0)) rows ≡ 0
allowed-none u protected [] = refl
allowed-none u protected (row ∷ rows) = ground (arith, allowed-none u protected rows)

allowed-le :
    (u : Unicode) (protected : List (List ℕ)) (g : Row → ℕ) (rows : List Row)
    → sum_of (allowed u protected g) rows ≤ sum_of g rows
allowed-le u protected g [] = omega arith
allowed-le u protected g (row ∷ rows) = ground (arith, allowed-le u protected g rows)

-- The rows of the three parts.
abbrev pub final_rows : Final → List Row
final_rows final = final.train ++ (final.val ++ final.calibration)

module _ (r : Rng) (u : Unicode) (f : Floats) (same_schema : String → String → Bool) where
  -- The parts are as the checks want them, have no protected state, take no row more often than
  -- the pools give it, and have the training rows that `counts` counts.
  pub record IsMixed (pools : List (String × List Row)) (protected original : List (List ℕ))
      (final : Final) (counts : List (String × ℕ)) : Type 0 where
    pub frozen : IsFrozen u same_schema original final
    pub unprotected : count_if (is_protected u protected) (final_rows final) ≡ 0
    pub once : (g : Row → ℕ) → sum_of g (final_rows final) ≤ sum_of g (members pools)
    pub counted : length final.train ≡ sum_of (λ c. c.1) counts

  final_rows-sum :
      (final : Final) (g : Row → ℕ)
      → sum_of g (final_rows final)
        ≡ sum_of g final.train + sum_of g final.val + sum_of g final.calibration
  final_rows-sum final g = omega (
    arith,
    sum_of-append g final.train (final.val ++ final.calibration),
    sum_of-append g final.val final.calibration,
  )

  -- Where the steps from the pools to the frozen parts succeed, the parts pass all checks, have no
  -- row whose normalised state is protected, take no row more often, in all, than the pools give
  -- it, and have as many training rows as the counts say.
  pub compose-IsMixed :
      (pools : List (String × List Row)) (protected original : List (List ℕ))
      (weights : List (String × f.Float)) (seed : ℕ) (final : Final) (counts : List (String × ℕ))
      (excluded : List (String × Reason))
      → compose r u f same_schema pools protected original weights seed
        ≡ ok (final, counts, excluded)
      → IsMixed pools protected original final counts
  unfolding compose
  compose-IsMixed pools protected original weights seed final counts excluded h =
      let (out, splits_done, h₁) =
        >>=-eq-ok (split_pools r u protected original seed [] pools) _ h in
      let (drawn, drawn_done, h₂) =
        >>=-eq-ok (weighted_sample r f (train_rows out.0) weights seed) _ h₁ in
      let made : Final = record {
        train = drawn.0;
        val = val_rows out.0;
        calibration = calib_rows out.0;
      } in
      let (checked, passed, h₃) = >>=-eq-ok (check_final u same_schema original made) _ h₂ in
      let same : made ≡ final = cc in
      let counts_same : drawn.1 ≡ counts = cc in
      let mixture =
        weighted_sample-IsMixture r f (train_rows out.0) weights seed drawn.0 drawn.1 drawn_done in
      let within : (g : Row → ℕ)
          → sum_of g (final_rows made) ≤ sum_of (allowed u protected g) (members pools) =
        λ g. omega (
          arith,
          final_rows-sum made g,
          mixture.once g,
          split_pools-sum r u protected original seed [] pools out g splits_done,
        ) in
      rw (← same, ← counts_same)
        (record {
          frozen = (check_final-IsFrozen u same_schema original made).0 passed;
          unprotected = omega (
            arith,
            within (λ row. if is_protected u protected row then 1 else 0),
            allowed-none u protected (members pools),
          );
          once = λ g. omega (arith, within g, allowed-le u protected g (members pools));
          counted = mixture.size;
        })
