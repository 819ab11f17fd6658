-- ===== src/Evaluation/Device/Routes.antt =====
-- tools/eval_phone_routing.py: the statistics of the routes against the rows.
use mathlib.Core.Path.{subst, ap}
use pocket_agents_lab.Prelude.{
  if◌then◌else◌, ℕ, Bool, String, List, [], ◌∷◌, ◌++◌, map, string_Eq, Groups, members, add_to,
  sort_by, sum_of, sum_of-append, Perm-sum_of, ◌≡◌, refl, ◌∙◌, sym, arith, add_to-perm,
  append_assoc, append-nil, members-sort_by, count_if, length, some, Option, length-sum_of_one, ap,
  length-map,
}
use pocket_agents_lab.Mixture.{str_le}
use pocket_agents_lab.Evaluation.Device.{
  DeviceCase, DeviceReply, DeviceRow, device_row, eval_cases, RouteStats, stats_of, DeviceReport,
  final_report, count_if, eval_phone_routing, length, some, is_gold, Option, limited,
}

abbrev pub verdict : DeviceRow → Bool
verdict row = row.correct

-- The two accumulators hold the same verdicts.
abbrev IsInStep : List DeviceRow → Groups String Bool → Type 0
IsInStep rows by_route =
    (f : Bool → ℕ) → sum_of f (members by_route) ≡ sum_of (λ row. f (verdict row)) rows

step_keeps :
    (rows : List DeviceRow) (by_route : Groups String Bool) (row : DeviceRow)
    → IsInStep rows by_route
    → IsInStep (rows ++ (row ∷ [])) (add_to row.gold (verdict row) by_route)
step_keeps rows by_route row same f = omega (
  arith,
  same f,
  Perm-sum_of f (add_to-perm row.gold (verdict row) by_route),
  sum_of-append (λ (r : DeviceRow). f (verdict r)) rows (row ∷ []),
)

eval_cases-IsInStep :
    (rows : List DeviceRow) (by_route : Groups String Bool)
    (cases : List (DeviceCase × DeviceReply))
    → IsInStep rows by_route
    → IsInStep (eval_cases rows by_route cases).0 (eval_cases rows by_route cases).1
unfolding eval_cases device_row
eval_cases-IsInStep rows by_route [] same = same
eval_cases-IsInStep rows by_route ((case, reply) ∷ cases) same =
    let row = device_row case reply in
    eval_cases-IsInStep (rows ++ (row ∷ [])) (add_to case.gold row.correct by_route) cases
      (step_keeps rows by_route row same)

eval_cases-rows :
    (rows : List DeviceRow) (by_route : Groups String Bool)
    (cases : List (DeviceCase × DeviceReply))
    → (eval_cases rows by_route cases).0 ≡ rows ++ map (λ c. device_row c.0 c.1) cases
unfolding eval_cases
eval_cases-rows rows by_route [] = sym (append-nil rows)
eval_cases-rows rows by_route ((case, reply) ∷ cases) =
    let row = device_row case reply in
    eval_cases-rows (rows ++ (row ∷ [])) (add_to case.gold row.correct by_route) cases
    ∙ append_assoc rows (row ∷ []) (map (λ c. device_row c.0 c.1) cases)

stats-sum :
    (f : Bool → ℕ) (field : RouteStats → ℕ)
    → ((g : String × List Bool) → field (stats_of g) ≡ sum_of f g.1)
    → (groups : Groups String Bool) → sum_of field (map stats_of groups) ≡ sum_of f (members groups)
stats-sum f field fits [] = refl
stats-sum f field fits (g ∷ groups) =
    omega (arith, fits g, stats-sum f field fits groups, sum_of-append f g.1 (members groups))

sorted_members :
    (f : Bool → ℕ) (groups : Groups String Bool)
    → sum_of f (members (sort_by (λ g h. str_le g.0 h.0) groups)) ≡ sum_of f (members groups)
sorted_members f groups = members-sort_by (λ g h. str_le g.0 h.0) groups f

-- The routes' statistics add up to the totals, which are those of the rows.
abbrev IsSummed : List DeviceRow → DeviceReport → Type 0
IsSummed rows report =
    (sum_of (λ (s : RouteStats). s.correct) report.per_route ≡ report.correct)
    × (sum_of (λ (s : RouteStats). s.total) report.per_route ≡ report.total)
    × (report.correct ≡ count_if verdict rows)
    × (report.total ≡ length rows)

one_if : Bool → ℕ
one_if b = if b then 1 else 0

final_report-IsSummed :
    (rows : List DeviceRow) (by_route : Groups String Bool) (report : DeviceReport)
    → IsInStep rows by_route
    → final_report rows by_route ≡ some report
    → IsSummed rows report
unfolding final_report one_if
final_report-IsSummed [] by_route report same h = absurd cc
final_report-IsSummed (row ∷ rows) by_route report same h =
    let all = row ∷ rows in
    let sorted =
      sort_by (λ (g : String × List Bool) (k : String × List Bool). str_le g.0 k.0) by_route in
    let made : record {
      correct = count_if verdict all;
      total = length all;
      latency_sum = sum_of (λ (r : DeviceRow). r.latency) all;
      per_route = map stats_of sorted;
    }
        ≡ report =
      cc in
    subst (IsSummed all) made (
      stats-sum one_if (λ s. s.correct) (λ g. refl) sorted
          ∙ sorted_members one_if by_route
          ∙ same one_if,
      stats-sum (λ b. 1) (λ s. s.total) (λ g. sym (length-sum_of_one g.1)) sorted
          ∙ sorted_members (λ b. 1) by_route
          ∙ same (λ b. 1)
          ∙ length-sum_of_one all,
      refl,
      refl,
    )

counted :
    (cases : List (DeviceCase × DeviceReply))
    → count_if verdict (map (λ c. device_row c.0 c.1) cases)
      ≡ count_if (λ (c : DeviceCase × DeviceReply). is_gold c.1.chosen c.0.gold) cases
unfolding device_row
counted [] = refl
counted (c ∷ cases) = omega (arith, counted cases)

-- In a final report, the correct and the total numbers of the routes add up to those of the
-- report, which are the number of cases whose reply is the gold route and of all cases up to the
-- limit.
pub eval_phone_routing-sums :
    (limit : Option ℕ) (cases : List (DeviceCase × DeviceReply)) (report : DeviceReport)
    → eval_phone_routing limit cases ≡ some report
    → (sum_of (λ (s : RouteStats). s.correct) report.per_route ≡ report.correct)
      × (sum_of (λ (s : RouteStats). s.total) report.per_route ≡ report.total)
      × (report.correct
          ≡ count_if
              (λ (c : DeviceCase × DeviceReply). is_gold c.1.chosen c.0.gold)
              (limited limit cases))
      × (report.total ≡ length (limited limit cases))
unfolding eval_phone_routing
eval_phone_routing-sums limit cases report h =
    let taken = limited limit cases in
    let (routes, totals, correct, total) =
      final_report-IsSummed (eval_cases [] [] taken).0 (eval_cases [] [] taken).1 report
        (eval_cases-IsInStep [] [] taken (λ f. refl)) h in
    (
      routes,
      totals,
      correct ∙ ap (count_if verdict) (eval_cases-rows [] [] taken) ∙ counted taken,
      total
          ∙ ap length (eval_cases-rows [] [] taken)
          ∙ length-map (λ (c : DeviceCase × DeviceReply). device_row c.0 c.1) taken,
    )
