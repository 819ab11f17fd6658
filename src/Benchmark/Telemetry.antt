-- ===== src/Benchmark/Telemetry.antt =====
-- tools/benchmark_decision_android.py, telemetry: what the patterns find in the texts that adb
-- prints. `int` of a character that is a digit, and the white space, are parameters.
pub mod Temperature
use pocket_agents_lab.Prelude.{
  ℕ, ◌+◌, ◌*◌, Bool, true, Option, none, some, [], ◌∷◌, if◌then◌else◌, Text, codes, has_prefix,
  has_part, drop_prefix, strip_start, ◌==◌,
}

-- The temperature is in tenths of a degree.
pub record Reading : Type 0 where
  pub temperature : Option ℕ
  pub status : Option ℕ
  pub pss_kb : Option ℕ
  pub usb_powered : Bool

pub data Command : Type 0 where
  battery : Command
  thermalservice : Command
  meminfo : (pid : ℕ) → Command

-- a or b
pub or_else {ℓ} : {A : Type ℓ} → Option A → Option A → Option A
or_else none b = b
or_else (some a) b = some a

-- re.search(pattern, text), where `match` is the pattern at the start of a text
unfoldable pub find_match : (Text → Option ℕ) → Text → Option ℕ
unfolding or_else
find_match match [] = match []
find_match match (c ∷ text) = or_else (match (c ∷ text)) (find_match match text)

-- re.search("^" + pattern, text, re.M)
pub find_in_line : (Text → Option ℕ) → (at_start : Bool) → Text → Option ℕ
unfolding or_else
find_in_line match at_start [] = if at_start then match [] else none
find_in_line match at_start (c ∷ text) =
    or_else (if at_start then match (c ∷ text) else none) (find_in_line match (c == 10) text)

module _ (is_space : ℕ → Bool) (digit : ℕ → Option ℕ) where
  pub digits_from : ℕ → Text → ℕ
  digits_from n [] = n
  digits_from n (c ∷ text) = elim (digit c) [ none ↦ n | some d ↦ digits_from (n * 10 + d) text ]

  -- (\d+)
  unfoldable pub number_at : Text → Option ℕ
  unfolding digits_from
  number_at [] = none
  number_at (c ∷ text) = elim (digit c) [ none ↦ none | some d ↦ some (digits_from d text) ]

  -- label\s*(\d+)
  unfoldable pub labelled : Text → Text → Option ℕ
  unfolding number_at
  labelled label text =
      if has_prefix label text
      then number_at (strip_start is_space (drop_prefix label text))
      else none

  -- (?:Thermal Status:|mStatus[=:])\s*(\d+)
  pub status_at : Text → Option ℕ
  unfolding labelled or_else
  status_at text =
      or_else (labelled (codes "Thermal Status:") text)
        (or_else (labelled (codes "mStatus=") text) (labelled (codes "mStatus:") text))

  pub spaced_number : Text → Option ℕ
  unfolding number_at
  spaced_number [] = none
  spaced_number (c ∷ text) = if is_space c then number_at (strip_start is_space text) else none

  -- \s*TOTAL\s+(\d+)
  pub total_at : Text → Option ℕ
  unfolding spaced_number
  total_at text =
      let line = strip_start is_space text in
      if has_prefix (codes "TOTAL") line
      then spaced_number (drop_prefix (codes "TOTAL") line)
      else none

  pub pss_of : Text → Option ℕ
  unfolding or_else find_match labelled find_in_line total_at
  pss_of mem =
      or_else (find_match (labelled (codes "TOTAL PSS:")) mem) (find_in_line total_at true mem)

  -- `pid` is `none` where it is not given, or 0; the result is `none` where a command raises.
  pub memory : (Command → Option Text) → Option ℕ → Option (Option ℕ)
  unfolding pss_of
  memory adb none = some none
  memory adb (some pid) = elim (adb (Command.meminfo pid)) [
    | none ↦ none
    | some mem ↦ some (pss_of mem)
  ]

  unfoldable pub reading_of : (levels thermal : Text) → Option ℕ → Reading
  unfolding find_match labelled status_at
  reading_of levels thermal pss = record {
    temperature = find_match (labelled (codes "temperature:")) levels;
    status = find_match status_at thermal;
    pss_kb = pss;
    usb_powered = has_part (codes "USB powered: true") levels;
  }

  unfoldable pub telemetry : (Command → Option Text) → Option ℕ → Option Reading
  unfolding reading_of memory
  telemetry adb pid = elim (adb Command.battery) [
    | none ↦ none
    | some levels ↦ elim (adb Command.thermalservice) [
      | none ↦ none
      | some thermal ↦ elim (memory adb pid) [
        | none ↦ none
        | some pss ↦ some (reading_of levels thermal pss)
      ]
    ]
  ]
