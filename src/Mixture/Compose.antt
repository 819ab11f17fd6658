-- ===== src/Mixture/Compose.antt =====
-- `main` from the pools of rows to the three parts that are frozen: the cleaning of each source, its
-- split, the weighted sample of the training rows, and the checks. The split of the typed decisions
-- keeps the rows of the original training for training, and shares the others out.
pub mod Cleaned
use pocket_agents_lab.Random.{Rng}
use pocket_agents_lab.Mixture.{Row, Result, ok, raise, ◌>>=◌, suc}
use pocket_agents_lab.Mixture.Clean.{Unicode, Reason, normalize, clean_pool}
use pocket_agents_lab.Mixture.Split.{Splits, by_id, stratified_split}
use pocket_agents_lab.Mixture.Sample.{Floats, weighted_sample}
use pocket_agents_lab.Mixture.Checks.{Final, check_final}
use pocket_agents_lab.Prelude.{
  zero, suc, length, take, ℕ, Bool, not, String, List, [], ◌∷◌, ◌++◌, map, contains, list_Eq,
  nat_Eq, string_Eq, ◌=?◌, keep_if, if◌then◌else◌, take, suc,
}

-- rows[::2] and rows[1::2]
unfoldable pub alternate : {A : Type 0} → List A → List A × List A
alternate [] = ([], [])
alternate (x ∷ xs) = let (evens, odds) = alternate xs in (x ∷ odds, evens)

-- list(range(n)), counted from i
pub range_from : (i n : ℕ) → List ℕ
range_from i zero = []
range_from i (suc n) = i ∷ range_from (suc i) n

-- set(indices[:80]), the positions that the original training held out
pub held_positions : (r : Rng) → List Row → List ℕ
unfolding range_from
held_positions r rows = take 80 (r.shuffle ℕ (r.seeded 3407) (range_from 0 (length rows))).0

module _ (r : Rng) (u : Unicode) where
  -- The normalised states of the rows whose positions are not among the 80 that were held out.
  unfoldable pub original_training : List Row → List (List ℕ)
  unfolding contains held_positions
  original_training rows_of_pool = states 0 rows_of_pool
    where
      states : ℕ → List Row → List (List ℕ)
      states i [] = []
      states i (row ∷ rows) =
          let rest = states (suc i) rows in
          if contains i (held_positions r rows_of_pool) then rest else normalize u row.state ∷ rest

  abbrev pub was_trained : List (List ℕ) → Row → Bool
  was_trained original row = contains (normalize u row.state) original

  -- The split of the typed decisions.
  unfoldable pub split_typed : List (List ℕ) → List Row → ℕ → Splits
  unfolding alternate
  split_typed original rows seed =
      let holdout =
        (r.shuffle Row (r.seeded seed)
          (by_id (keep_if (λ row. not (was_trained original row)) rows))).0 in
      record {
        train = keep_if (was_trained original) rows;
        val = (alternate holdout).0;
        calibration = (alternate holdout).1;
      }

  unfoldable pub split_source : List (List ℕ) → String → List Row → ℕ → Result Splits
  unfolding split_typed stratified_split
  split_source original source rows seed =
      if source =? "typed_decisions"
      then ok (split_typed original rows seed)
      else stratified_split r rows seed

  module _ (protected original : List (List ℕ)) (seed : ℕ) where
    -- The loop over the pools: `splits`, and `excluded`.
    unfoldable pub split_pools :
        List (String × Reason)
        → List (String × List Row)
        → Result (List (String × Splits) × List (String × Reason))
    unfolding clean_pool split_source
    split_pools excluded [] = ok ([], excluded)
    split_pools excluded ((source, rows) ∷ pools) =
        let (kept, more) = clean_pool u rows protected excluded in
        do
          split ← split_source original source kept seed
          (splits, all) ← split_pools more pools
          ok ((source, split) ∷ splits, all)

abbrev pub train_rows : List (String × Splits) → List (String × List Row)
train_rows = map (λ s. (s.0, s.1.train))

abbrev pub val_rows : List (String × Splits) → List Row
val_rows [] = []
val_rows ((source, split) ∷ splits) = split.val ++ val_rows splits

abbrev pub calib_rows : List (String × Splits) → List Row
calib_rows [] = []
calib_rows ((source, split) ∷ splits) = split.calibration ++ calib_rows splits

module _ (r : Rng) (u : Unicode) (f : Floats) (same_schema : String → String → Bool) where
  -- The three parts, `counts` and `excluded`.
  unfoldable pub compose :
      (pools : List (String × List Row)) (protected original : List (List ℕ))
      → (weights : List (String × f.Float)) (seed : ℕ)
      → Result (Final × List (String × ℕ) × List (String × Reason))
  unfolding split_pools weighted_sample
  compose pools protected original weights seed = do
    (splits, excluded) ← split_pools r u protected original seed [] pools
    (train, counts) ← weighted_sample r f (train_rows splits) weights seed
    checked ←
        check_final u same_schema original
          (record { train = train; val = val_rows splits; calibration = calib_rows splits })
    ok (
      record { train = train; val = val_rows splits; calibration = calib_rows splits },
      counts,
      excluded,
    )
