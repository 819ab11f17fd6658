-- ===== src/Evaluation/Device.antt =====
-- tools/eval_phone_routing.py: the loop over the cases of a split, on the phone, and the final
-- report. What the phone and the model do for a case is an argument. The mean of the latencies is
-- a sum and a count.
pub mod Routes
use pocket_agents_lab.Prelude.{
  ℕ, zero, suc, Bool, true, false, Option, none, some, String, List, [], ◌∷◌, ◌++◌, map, string_Eq,
  ◌=?◌, Groups, add_to, sort_by, length, take, sum_of, count_if, if◌then◌else◌,
}
use pocket_agents_lab.Mixture.{str_le}

pub record DeviceCase : Type 0 where
  pub id : String
  pub gold : String

-- `chosen` is `none` where the telemetry, the request or the reading of its result raises.
pub record DeviceReply : Type 0 where
  pub chosen : Option String
  pub latency : ℕ

pub record DeviceRow : Type 0 where
  pub id : String
  pub gold : String
  pub chosen : Option String
  pub correct : Bool
  pub latency : ℕ

unfoldable pub is_gold : Option String → String → Bool
is_gold none gold = false
is_gold (some chosen) gold = chosen =? gold

unfoldable pub device_row : DeviceCase → DeviceReply → DeviceRow
unfolding is_gold
device_row case reply = record {
  id = case.id;
  gold = case.gold;
  chosen = reply.chosen;
  correct = is_gold reply.chosen case.gold;
  latency = reply.latency;
}

-- The loop: report["cases"] and correct_by_route.
unfoldable pub eval_cases :
    List DeviceRow
    → Groups String Bool
    → List (DeviceCase × DeviceReply)
    → List DeviceRow × Groups String Bool
unfolding device_row add_to
eval_cases rows by_route [] = (rows, by_route)
eval_cases rows by_route ((case, reply) ∷ cases) =
    let row = device_row case reply in
    eval_cases (rows ++ (row ∷ [])) (add_to case.gold row.correct by_route) cases

pub record RouteStats : Type 0 where
  pub route : String
  pub correct : ℕ
  pub total : ℕ

pub record DeviceReport : Type 0 where
  pub correct : ℕ
  pub total : ℕ
  pub latency_sum : ℕ
  pub per_route : List RouteStats

-- sum(v)
abbrev pub count_true : List Bool → ℕ
count_true = count_if (λ b. b)

abbrev pub stats_of : String × List Bool → RouteStats
stats_of group = record { route = group.0; correct = count_true group.1; total = length group.1 }

-- report.update(complete=True, …), `none` where statistics.mean raises
unfoldable pub final_report : List DeviceRow → Groups String Bool → Option DeviceReport
unfolding sort_by
final_report [] by_route = none
final_report (row ∷ rows) by_route = some (record {
  correct = count_if (λ (r : DeviceRow). r.correct) (row ∷ rows);
  total = length (row ∷ rows);
  latency_sum = sum_of (λ (r : DeviceRow). r.latency) (row ∷ rows);
  per_route = map stats_of (sort_by (λ g h. str_le g.0 h.0) by_route);
})

-- if args.limit: cases = cases[:args.limit]
unfoldable pub limited {ℓ} : {A : Type ℓ} → Option ℕ → List A → List A
limited none cases = cases
limited (some zero) cases = cases
limited (some (suc n)) cases = take (suc n) cases

unfoldable pub eval_phone_routing :
    (limit : Option ℕ) → List (DeviceCase × DeviceReply) → Option DeviceReport
unfolding eval_cases final_report limited
eval_phone_routing limit cases =
    let (rows, by_route) = eval_cases [] [] (limited limit cases) in final_report rows by_route
