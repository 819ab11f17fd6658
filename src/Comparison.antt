-- ===== src/Comparison.antt =====
-- tools/analyze_comparison.py: the statistics of the cases of a benchmark's report, in all and by
-- category. The cases are the rows that the benchmark saves. A mean is a sum and a count, a median
-- a sum and the number of its terms. The text of the comparison is not modelled.
pub mod Categories
pub mod Totals
pub mod Thinking
use pocket_agents_lab.Prelude.{
  ℕ, zero, suc, ◌+◌, ◌/◌, ◌%◌, Bool, true, false, not, ◌&&◌, Option, none, some, String, List, [],
  ◌∷◌, ◌++◌, map, if◌then◌else◌, Text, codes, ◌==◌, ltb, leb, length, drop, sum_of, count_if,
  keep_if, sort_by, list_Eq, nat_Eq, ◌=?◌, min, max, ◌-◌,
}
use pocket_agents_lab.Benchmark.Telemetry.{Reading}
use pocket_agents_lab.Benchmark.Gate.{second}
use pocket_agents_lab.Benchmark.Run.{CaseRow, count_correct, count_raw}

-- The text before the last copy of a character.
unfoldable pub before_last : ℕ → Text → Option Text
before_last sep [] = none
before_last sep (c ∷ text) = elim (before_last sep text) [
  | some before ↦ some (c ∷ before)
  | none ↦ if sep == c then some [] else none
]

-- case_id.rsplit("-", 1)[0]
unfoldable pub category_of : Text → Text
unfolding before_last
category_of case_id = elim (before_last b'-' case_id) [ none ↦ case_id | some category ↦ category ]

abbrev pub category : CaseRow → Text
category row = category_of (codes row.id)

abbrev pub is_regression : CaseRow → Bool
is_regression row = row.raw_correct && not row.correct

abbrev pub is_rescue : CaseRow → Bool
is_rescue row = not row.raw_correct && row.correct

pub record CategoryEntry : Type 0 where
  pub n : ℕ
  pub raw : ℕ
  pub guard : ℕ
  pub latencies : List ℕ
  pub pss_before : List ℕ
  pub pss_after : List ℕ
  pub temps_before : List ℕ
  pub temps_after : List ℕ
  pub cooldowns : List ℕ
  pub guard_regressions : List String
  pub guard_rescues : List String

abbrev pub empty_entry : CategoryEntry
empty_entry = record {
  n = 0;
  raw = 0;
  guard = 0;
  latencies = [];
  pss_before = [];
  pss_after = [];
  temps_before = [];
  temps_after = [];
  cooldowns = [];
  guard_regressions = [];
  guard_rescues = [];
}

-- A value that is found; of a number that is read for its truth, one that is not 0.
abbrev pub found : Option ℕ → List ℕ
found none = []
found (some v) = v ∷ []

abbrev pub truthy : Option ℕ → List ℕ
truthy none = []
truthy (some v) = if v == 0 then [] else v ∷ []

-- The body of the loop of cases_stats.
abbrev pub tally_case : CategoryEntry → CaseRow → CategoryEntry
tally_case entry c = record {
  n = entry.n + 1;
  raw = if c.raw_correct then entry.raw + 1 else entry.raw;
  guard = if c.correct then entry.guard + 1 else entry.guard;
  latencies = entry.latencies ++ (c.latency ∷ []);
  pss_before = entry.pss_before ++ truthy c.before.pss_kb;
  pss_after = entry.pss_after ++ truthy c.after.pss_kb;
  temps_before = entry.temps_before ++ found c.before.temperature;
  temps_after = entry.temps_after ++ found c.after.temperature;
  cooldowns = entry.cooldowns ++ (c.cooldown ∷ []);
  guard_regressions =
      if is_regression c then entry.guard_regressions ++ (c.id ∷ []) else entry.guard_regressions;
  guard_rescues = if is_rescue c then entry.guard_rescues ++ (c.id ∷ []) else entry.guard_rescues;
}

abbrev pub Stats : Type 0
Stats = List (Text × CategoryEntry)

-- by_cat.setdefault(cat, …), with the entry changed
unfoldable pub tally_into : Text → CaseRow → Stats → Stats
tally_into cat c [] = (cat, tally_case empty_entry c) ∷ []
tally_into cat c ((name, entry) ∷ stats) =
    if cat =? name
    then (name, tally_case entry c) ∷ stats
    else (name, entry) ∷ tally_into cat c stats

unfoldable pub stats_onto : Stats → List CaseRow → Stats
unfolding tally_into
stats_onto stats [] = stats
stats_onto stats (c ∷ cases) = stats_onto (tally_into (category c) c stats) cases

unfoldable pub cases_stats : List CaseRow → Stats
unfolding stats_onto
cases_stats cases = stats_onto [] cases

-- min(xs) and max(xs), where there are any
unfoldable pub min_of : List ℕ → Option ℕ
min_of [] = none
min_of (x ∷ xs) = some (elim (min_of xs) [ none ↦ x | some m ↦ min x m ])

unfoldable pub max_of : List ℕ → Option ℕ
max_of [] = none
max_of (x ∷ xs) = some (elim (max_of xs) [ none ↦ x | some m ↦ max x m ])

-- statistics.mean: the sum and the count
pub mean : List ℕ → Option (ℕ × ℕ)
mean [] = none
mean (x ∷ xs) = some (sum_of (λ y. y) (x ∷ xs), length (x ∷ xs))

-- The sum of the first one or two elements, and their number.
pub middle : (odd : Bool) → List ℕ → Option (ℕ × ℕ)
middle odd [] = none
middle odd (x ∷ []) = some (x, 1)
middle odd (x ∷ (y ∷ xs)) = some (if odd then (x, 1) else (x + y, 2))

-- statistics.median
pub median : List ℕ → Option (ℕ × ℕ)
unfolding middle
median xs =
    let sorted = sort_by leb xs in
    let n = length sorted in
    if n % 2 == 1 then middle true (drop (n / 2) sorted) else middle false (drop (n / 2 - 1) sorted)

pub record Analysis : Type 0 where
  pub n : ℕ
  pub raw_ok : ℕ
  pub guard_ok : ℕ
  pub lat_mean : Option (ℕ × ℕ)
  pub lat_median : Option (ℕ × ℕ)
  pub lat_min : Option ℕ
  pub lat_max : Option ℕ
  pub pss_first : Option ℕ
  pub pss_mean_after : Option (ℕ × ℕ)
  pub pss_peak : Option ℕ
  pub temp_min : Option ℕ
  pub temp_max : Option ℕ
  pub real_cooldown_count : ℕ
  pub real_cooldown_total : ℕ
  pub thermal_moderate_events : ℕ
  pub guard_regressions : ℕ
  pub guard_rescues : ℕ
  pub by_cat : Stats

pub data Analyzed : Type 0 where
  -- The empty dict.
  no_cases : Analyzed
  -- A comparison of a missing thermal status with 2 raises.
  status_missing : Analyzed
  analysis : (result : Analysis) → Analyzed

-- The thermal statuses after the cases, `none` where one is missing.
unfoldable pub moderate_events : List CaseRow → Option ℕ
moderate_events [] = some 0
moderate_events (c ∷ cases) = elim c.after.status [
  | none ↦ none
  | some status ↦ elim (moderate_events cases) [
    | none ↦ none
    | some events ↦ some (if leb 2 status then suc events else events)
  ]
]

unfoldable pub collect {ℓ} : {A : Type ℓ} → (A → List ℕ) → List A → List ℕ
collect f [] = []
collect f (x ∷ xs) = f x ++ collect f xs

unfoldable pub summarize : (case : CaseRow) (cases : List CaseRow) (thermal_moderate : ℕ) → Analysis
unfolding collect min_of max_of mean median cases_stats
summarize case rest thermal_moderate =
    let cases = case ∷ rest in
    let lats = map (λ (c : CaseRow). c.latency) cases in
    let pss_after = collect (λ (c : CaseRow). truthy c.after.pss_kb) cases in
    let temps = collect (λ (c : CaseRow). found c.after.temperature) cases in
    let real_cooldowns = keep_if (λ t. ltb second t) (map (λ (c : CaseRow). c.cooldown) cases) in
    record {
      n = length cases;
      raw_ok = count_raw cases;
      guard_ok = count_correct cases;
      lat_mean = mean lats;
      lat_median = median lats;
      lat_min = min_of lats;
      lat_max = max_of lats;
      pss_first = case.before.pss_kb;
      pss_mean_after = mean pss_after;
      pss_peak = max_of pss_after;
      temp_min = min_of temps;
      temp_max = max_of temps;
      real_cooldown_count = length real_cooldowns;
      real_cooldown_total = sum_of (λ t. t) real_cooldowns;
      thermal_moderate_events = thermal_moderate;
      guard_regressions = count_if is_regression cases;
      guard_rescues = count_if is_rescue cases;
      by_cat = cases_stats cases;
    }

unfoldable pub analyze : List CaseRow → Analyzed
unfolding moderate_events summarize
analyze [] = Analyzed.no_cases
analyze (case ∷ cases) = elim (moderate_events (case ∷ cases)) [
  | none ↦ Analyzed.status_missing
  | some events ↦ Analyzed.analysis (summarize case cases events)
]
