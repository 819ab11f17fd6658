-- ===== src/Tests/Readings.antt =====
-- A run of the reading of the phone's temperature.
use pocket_agents_lab.Prelude.{
  ℕ, ◌+◌, ◌-◌, Bool, true, false, ◌&&◌, Option, some, none, [], ◌∷◌, ◌++◌, ◌≡◌, refl, leb, ltb,
  codes, arith, ◌==◌, if◌then◌else◌, has_prefix,
}
use pocket_agents_lab.Benchmark.Telemetry.{reading_of}
use pocket_agents_lab.Benchmark.Telemetry.Temperature.{reading_of-temperature}

abbrev digit_value : ℕ → Option ℕ
digit_value c = if leb b'0' c && leb c b'9' then some (c - b'0') else none

abbrev is_blank : ℕ → Bool
is_blank c = c == b' '

abbrev print_digit : ℕ → ℕ
print_digit d = b'0' + d

print_digit-value : (d : ℕ) → ltb d 10 ≡ true → digit_value (print_digit d) ≡ some d
print_digit-value d small = ground arith

print_digit-solid : (d : ℕ) → ltb d 10 ≡ true → is_blank (print_digit d) ≡ false
print_digit-solid d small = ground arith

reading_of-temperature_example :
    (reading_of is_blank digit_value
      (codes "status: 2 " ++ codes "temperature: 361 ")
      (codes "Thermal Status: 0")
      none).temperature
    ≡ some 361
unfolding has_prefix
reading_of-temperature_example =
    reading_of-temperature is_blank digit_value print_digit print_digit-value print_digit-solid
      (codes "status: 2 ") (codes " ") 3 (6 ∷ 1 ∷ []) (codes " ") (codes "Thermal Status: 0") none
      (refl, (refl, (refl, (refl, (refl, (refl, (refl, (refl, (refl, (refl, tt)))))))))) (refl, tt)
      (refl, (refl, (refl, tt))) refl
