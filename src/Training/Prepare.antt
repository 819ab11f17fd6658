-- ===== src/Training/Prepare.antt =====
-- The data that training is given, with the checks before it: `main` of
-- tools/train_phone_routing.py, tools/train_combined_routing.py and
-- tools/train_general_routing.py, as far as the data goes, and `check_build_report` of
-- tools/decision_training_utils.py. `FastDecisionModel.build_dataset` is a parameter.
use pocket_agents_lab.Random.{Rng}
use pocket_agents_lab.Training.Carve.{carve_validation, carve_evenly, sorted_routes}
use pocket_agents_lab.Training.Mix.{Floats, weighted_mix}
use pocket_agents_lab.Training.Isolation.{check_split_isolation}
use pocket_agents_lab.Prelude.{
  ℕ, Bool, ◌&&◌, Option, none, some, String, List, ◌++◌, length, take, ◌==◌, Eq, if◌then◌else◌, ltb,
  inl, inr, ◌⊎◌,
}

-- What build_dataset returns: the items, and report.get("skipped", 0).
pub record Built (Item : Type 0) : Type 0 where
  pub items : List Item
  pub skipped : ℕ

-- The exceptions of the steps.
pub data DataError : Type 0 where
  no_routes : DataError
  not_finite : DataError
  wrong_schema : DataError
  not_isolated : DataError
  invalid_dataset : DataError

pub record TrainingSplits (Item : Type 0) : Type 0 where
  pub train : List Item
  pub val : List Item
  pub calib : List Item

-- `true` where the check passes.
unfoldable pub check_build_report : {Item : Type 0} → Built Item → Bool
check_build_report built = ltb 0 (length built.items) && (built.skipped == 0)

-- `has_head` tells whether the model has a head.
unfoldable pub check_label_mapping : (route_names : ℕ) (has_head : Bool) → Bool
check_label_mapping route_names has_head = (route_names == 9) && has_head

unfoldable pub truncate :
    {Item : Type 0} → (smoke : Bool) → TrainingSplits Item → TrainingSplits Item
truncate smoke splits =
    if smoke
    then record {
      train = take 32 splits.train;
      val = take 16 splits.val;
      calib = take 16 splits.calib;
    }
    else splits

unfoldable pub check_reports :
    {Item : Type 0}
    → (smoke : Bool) → (train val calib : Built Item) → DataError ⊎ TrainingSplits Item
unfolding check_build_report truncate
check_reports smoke train val calib =
    if check_build_report train && check_build_report val && check_build_report calib
    then inr (truncate smoke (record { train = train.items; val = val.items; calib = calib.items }))
    else inl DataError.invalid_dataset

module _ (r : Rng) (Row Item : Type 0) ⦃e : Eq Row⦄ (route : Row → String)
    (build : List Row → Built Item) where
  -- The checks of train_phone_routing on the parts of the carve.
  unfoldable pub check_phone :
      (id : Row → Option String) (state : Row → String) (has_head smoke : Bool)
      → (train_raw calib_raw keep_raw val_raw : List Row) → DataError ⊎ TrainingSplits Item
  unfolding check_label_mapping check_split_isolation check_reports
  check_phone id state has_head smoke train_raw calib_raw keep_raw val_raw =
      if check_label_mapping (length (sorted_routes Row route train_raw)) has_head
      then if check_split_isolation Row id state train_raw val_raw
        then check_reports smoke (build keep_raw) (build val_raw) (build calib_raw)
        else inl DataError.not_isolated
      else inl DataError.wrong_schema

  -- train_phone_routing
  unfoldable pub prepare_phone :
      (id : Row → Option String) (state : Row → String) (has_head smoke : Bool)
      → (train_raw calib_raw : List Row) (val_split_size seed : ℕ) → DataError ⊎ TrainingSplits Item
  unfolding carve_validation check_phone
  prepare_phone id state has_head smoke train_raw calib_raw val_split_size seed =
      elim (carve_validation r Row route train_raw val_split_size seed) [
        | none ↦ inl DataError.no_routes
        | some (keep_raw, val_raw) ↦
            check_phone id state has_head smoke train_raw calib_raw keep_raw val_raw
      ]

  -- train_general_routing
  unfoldable pub prepare_general :
      (smoke : Bool) (train_raw val_raw calib_raw : List Row) → DataError ⊎ TrainingSplits Item
  unfolding check_reports
  prepare_general smoke train_raw val_raw calib_raw =
      check_reports smoke (build train_raw) (build val_raw) (build calib_raw)

  -- The validation items of the two domains, which train_combined_routing evaluates apart.
  pub check_domains :
      (smoke : Bool) (phone general : Built Item) → DataError ⊎ (List Item × List Item)
  unfolding check_build_report
  check_domains smoke phone general =
      if check_build_report phone && check_build_report general
      then inr (
          if smoke
          then (take 16 phone.items, take 16 general.items)
          else (phone.items, general.items))
      else inl DataError.invalid_dataset

  pub both :
      DataError ⊎ TrainingSplits Item
      → DataError ⊎ (List Item × List Item)
      → DataError ⊎ (TrainingSplits Item × List Item × List Item)
  both (inl error) domains = inl error
  both (inr splits) (inl error) = inl error
  both (inr splits) (inr (phone, general)) = inr (splits, phone, general)

  -- train_combined_routing: the splits, and the validation items of each domain.
  unfoldable pub prepare_combined :
      (f : Floats) (smoke : Bool)
      (phone_train phone_calib general_train general_val general_calib : List Row)
      → (phone_weight general_weight : f.Float) (phone_val_split seed : ℕ)
      → DataError ⊎ (TrainingSplits Item × List Item × List Item)
  unfolding carve_evenly weighted_mix check_reports check_domains both
  prepare_combined f smoke phone_train phone_calib general_train general_val general_calib
        phone_weight general_weight phone_val_split seed =
      elim (carve_evenly r Row route phone_train phone_val_split seed) [
        | none ↦ inl DataError.no_routes
        | some (phone_keep, phone_val) ↦
            elim (weighted_mix r f Row phone_keep general_train phone_weight general_weight seed) [
              | none ↦ inl DataError.not_finite
              | some (combined_train, _, _) ↦
                  both
                    (check_reports smoke (build combined_train) (build (phone_val ++ general_val))
                      (build (phone_calib ++ general_calib)))
                    (check_domains smoke (build phone_val) (build general_val))
            ]
      ]
