-- ===== src/Tests/Datasets.antt =====
-- Runs of the construction of the phone dataset.
use pocket_agents_lab.Prelude.{
  refl, ℕ, String, List, [], ◌∷◌, codes, strip, Text, list_Eq, nat_Eq, string_Eq, length, map,
  contains, if◌then◌else◌, sum_of, ◌≡◌, ◌=?◌, ◌≤◌, min, members, ◌-◌, ◌*◌,
}
use pocket_agents_lab.Dataset.{build_dataset}
use pocket_agents_lab.Dataset.Queries.{queries}
use pocket_agents_lab.Dataset.Exclusion.{records_of, build_dataset-excludes}
use pocket_agents_lab.Dataset.Sizes.{weigh, clean_count, build_dataset-sizes}
use pocket_agents_lab.Tests.Instances.{still, python}

-- q.strip().lower(), for spaces and ASCII letters
abbrev norm : String → Text
norm q = python.lower (strip python.is_space (codes q))

abbrev dev_prompts : List Text
dev_prompts = codes "is my battery hot?" ∷ []

abbrev few : List (String × List String)
few =
    ("get_battery_info", "Is my battery hot?" ∷ "Am I plugged in?" ∷ [])
    ∷ ("answer", "Who are you?" ∷ [])
    ∷ []

abbrev is_hot : String → ℕ
is_hot q = if q =? "Is my battery hot?" then 1 else 0

build_dataset-excludes_example :
    sum_of (λ rec. is_hot rec.state) (records_of (build_dataset still norm dev_prompts few))
    ≤ sum_of (λ q. if contains (norm q) dev_prompts then 0 else is_hot q) (members few)
build_dataset-excludes_example = build_dataset-excludes still norm dev_prompts few is_hot

abbrev battery_records : String → String → ℕ
battery_records split route = if route =? "get_battery_info" then 1 else 0

build_dataset-sizes_example :
    (sum_of (weigh battery_records) (build_dataset still norm dev_prompts few).train
      ≡ sum_of (λ q. min 100 (clean_count norm dev_prompts q) * battery_records "train" q.0) few)
    × (sum_of (weigh battery_records) (build_dataset still norm dev_prompts few).calibration
        ≡ sum_of
            (λ q. min 10 (clean_count norm dev_prompts q - 100) * battery_records "calibration" q.0)
            few)
    × (sum_of (weigh battery_records) (build_dataset still norm dev_prompts few).test
        ≡ sum_of
            (λ q. min 10 (clean_count norm dev_prompts q - 110) * battery_records "test" q.0)
            few)
build_dataset-sizes_example = build_dataset-sizes still norm dev_prompts few battery_records

-- The numbers of queries of the routes.
queries_run :
    map (λ q. length q.1) queries ≡ 155 ∷ 123 ∷ 120 ∷ 120 ∷ 125 ∷ 120 ∷ 120 ∷ 130 ∷ 133 ∷ []
queries_run = refl
