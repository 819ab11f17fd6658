-- ===== src/Training/Isolation/Carved.antt =====
-- tools/train_phone_routing.py: the isolation check on the rows from which the validation rows were
-- carved, which is what `main` calls it on, and on the rows that the carve leaves.
use pocket_agents_lab.Random.{Rng}
use pocket_agents_lab.Training.Carve.{carve_validation, sorted_routes}
use pocket_agents_lab.Training.Carve.Partition.{carve_validation-Rearranges}
use pocket_agents_lab.Training.Isolation.{overlaps, check_split_isolation, option_Eq}
use pocket_agents_lab.Training.Prepare.{
  Built, TrainingSplits, DataError, prepare_phone, check_phone, check_reports, check_build_report,
  check_label_mapping,
}
use pocket_agents_lab.Prelude.{
  ℕ, ◌<◌, Bool, true, false, Option, String, List, [], ◌∷◌, ◌++◌, map, Eq, string_Eq, ◌=?◌,
  contains, length, ltb, if◌then◌else◌, ◌≡◌, ◌≢◌, refl, inl, inr, arith, sum_of, sum_of-append,
  Rearranges, Bool-cases,
}

module _ {Row K : Type 0} ⦃e : Eq K⦄ (key : Row → K) where
  -- The number of rows with the key of a row.
  abbrev copies : Row → List Row → ℕ
  copies x = sum_of (λ y. if key x =? key y then 1 else 0)

  contains-copies :
      (x : Row) (rows : List Row) → 0 < copies x rows → contains (key x) (map key rows) ≡ true
  unfolding contains
  contains-copies x [] some_copy = absurd (omega arith)
  contains-copies x (y ∷ rows) some_copy = ground (arith, contains-copies x rows)

  -- A row of the second part has its key among the rows that were shared out.
  contains-part :
      (x : Row) (keep val rows : List Row)
      → Rearranges (keep ++ (x ∷ val)) rows
      → contains (key x) (map key rows) ≡ true
  contains-part x keep val rows same = contains-copies x rows (
      ground (
        arith,
        same (λ y. if key x =? key y then 1 else 0),
        sum_of-append (λ y. if key x =? key y then 1 else 0) keep (x ∷ val),
        e.equal_iff (key x) (key x),
      ))

module _ {K : Type 0} ⦃e : Eq K⦄ where
  overlaps-common : (x : K) (xs ys : List K) → contains x ys ≡ true → overlaps ys (x ∷ xs) ≡ true
  unfolding overlaps contains
  overlaps-common x xs [] member = absurd cc
  overlaps-common x xs (y ∷ ys) member =
      ground (arith, overlaps-common x xs ys, e.equal_iff x y, e.equal_iff y x)

module _ (r : Rng) (Row : Type 0) ⦃e : Eq Row⦄ (route : Row → String) (id : Row → Option String)
    (state : Row → String) where
  check_split_isolation-fails :
      (x : Row) (keep val rows : List Row)
      → Rearranges (keep ++ (x ∷ val)) rows
      → check_split_isolation Row id state rows (x ∷ val) ≡ false
  unfolding check_split_isolation
  check_split_isolation-fails x keep val rows same =
      let by_id =
        overlaps-common (id x) (map id val) (map id rows) (contains-part id x keep val rows same) in
      let by_state =
        overlaps-common (state x) (map state val) (map state rows)
          (contains-part state x keep val rows same) in
      ground arith

  module _ (Item : Type 0) (build : List Row → Built Item) (empty : (build []).items ≡ []) where
    -- No rows make no dataset.
    check_reports-fails :
        (smoke : Bool) (train calib : Built Item)
        → check_reports smoke train (build []) calib ≡ inl DataError.invalid_dataset
    unfolding check_reports check_build_report
    check_reports-fails smoke train calib =
        let none_built : ltb 0 (length (build []).items) ≡ false = rw empty refl in ground arith

    check_phone-fails :
        (has_head smoke : Bool) (rows calib_raw keep val : List Row) (splits : TrainingSplits Item)
        → Rearranges (keep ++ val) rows
        → check_phone r Row Item route build id state has_head smoke rows calib_raw keep val
          ≢ inr splits
    unfolding check_phone
    check_phone-fails has_head smoke rows calib_raw keep [] splits same h =
        let report = check_reports-fails smoke (build keep) (build calib_raw) in
        elim (Bool-cases (check_label_mapping (length (sorted_routes Row route rows)) has_head)) [
          | inr wrong ↦ let stopped = rw (check_phone, wrong) at h in cc
          | inl good ↦ elim (Bool-cases (check_split_isolation Row id state rows [])) [
            | inr shared ↦ let stopped = rw (check_phone, good, shared) at h in cc
            | inl apart ↦ let stopped = rw (check_phone, good, apart, report) at h in cc
          ]
        ]
    check_phone-fails has_head smoke rows calib_raw keep (x ∷ val) splits same h =
        let raises = check_split_isolation-fails x keep val rows same in
        elim (Bool-cases (check_label_mapping (length (sorted_routes Row route rows)) has_head)) [
          | inr wrong ↦ let stopped = rw (check_phone, wrong) at h in cc
          | inl good ↦ let stopped = rw (check_phone, good, raises) at h in cc
        ]

    -- Whatever the rows, the size of the validation part and the seed, the checks of
    -- train_phone_routing never let it go on to the training, where a dataset of no rows has no
    -- items: the validation rows, if there are any, are compared with the rows that they were
    -- carved from.
    pub prepare_phone-fails :
        (has_head smoke : Bool) (train_raw calib_raw : List Row) (val_split_size seed : ℕ)
        (splits : TrainingSplits Item)
        → prepare_phone r Row Item route build id state has_head smoke train_raw calib_raw
            val_split_size seed
          ≢ inr splits
    unfolding prepare_phone carve_validation
    prepare_phone-fails has_head smoke [] calib_raw val_split_size seed splits h = cc
    prepare_phone-fails has_head smoke (row ∷ rows) calib_raw val_split_size seed splits h =
        let (out, done, parts) =
          carve_validation-Rearranges r Row route row rows val_split_size seed in
        check_phone-fails has_head smoke (row ∷ rows) calib_raw out.0 out.1 splits parts
          (rw (prepare_phone, done) at h)
