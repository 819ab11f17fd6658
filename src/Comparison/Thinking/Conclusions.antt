-- ===== src/Comparison/Thinking/Conclusions.antt =====
-- tools/analyze_thinking_comparison.py, report: which conclusion is drawn when.
use pocket_agents_lab.Prelude.{
  ℕ, ◌+◌, ◌-◌, ◌*◌, ◌≤◌, ◌<◌, Bool, false, ◌||◌, ◌≡◌, ◌↔◌, ◌⊎◌, inl, inr, ltb, Option, some, none,
  if◌then◌else◌, arith, count_if, length, List, [], ◌∷◌, refl, ap, ◌∙◌, ◌==◌,
}
use pocket_agents_lab.Benchmark.Run.{CaseRow}
use pocket_agents_lab.Comparison.Thinking.{
  acc, Percentages, Conclusion, conclude, report_conclusion, percent, reads_raw,
}

-- What floating-point arithmetic does with the whole numbers up to 1000: quotients that are whole,
-- sums and distances are exact, and the order is that of the numbers.
pub record IsExact (P : Percentages) : Type 0 where
  pub exact_quotient : (a n p : ℕ) → 0 < n → p ≤ 1000 → a ≡ p * n → P.quotient a n ≡ P.whole p
  pub exact_sum : (a b : ℕ) → a ≤ 500 → b ≤ 500 → P.plus (P.whole a) (P.whole b) ≡ P.whole (a + b)
  pub exact_distance :
      (a b : ℕ)
      → a ≤ 1000
      → b ≤ 1000
      → P.abs (P.minus (P.whole a) (P.whole b)) ≡ P.whole ((a - b) + (b - a))
  pub exact_order : (a b : ℕ) → a ≤ 1000 → b ≤ 1000 → P.is_lt (P.whole a) (P.whole b) ≡ ltb a b

-- The accuracy of a run that has cases is a whole percentage.
pub record HasAccuracy (cases : List CaseRow) (p : ℕ) : Type 0 where
  pub some_cases : 0 < length cases
  pub accuracy : 100 * count_if reads_raw cases ≡ p * length cases
  pub at_most_hundred : p ≤ 100

drawn : (close better near : Bool) → Conclusion
drawn close better near =
    if close
    then Conclusion.no_difference
    else if better
    then Conclusion.recovers near
    else Conclusion.off_outperforms

drawn_iff :
    (a b : ℕ) (near : Bool)
    → let conclusion : Option Conclusion =
        some (drawn (ltb ((a - b) + (b - a)) 5) (ltb (b + 5) a) near) in
      ((conclusion ≡ some Conclusion.no_difference) ↔ ((a < b + 5) × (b < a + 5)))
      × ((conclusion ≡ some (Conclusion.recovers near)) ↔ (b + 5 < a))
      × ((conclusion ≡ some Conclusion.off_outperforms) ↔ ((a + 5 ≤ b) ⊎ (a ≡ b + 5)))
unfolding drawn
drawn_iff a b near = (
  (λ h. ground arith, λ h. ground arith),
  (λ h. ground arith, λ h. ground arith),
  (λ h. ground arith, λ h. ground arith),
)

total_guard :
    (a b : Bool) (conclusion : Conclusion)
    → a ≡ false
    → b ≡ false
    → (if a || b then none else some conclusion) ≡ some conclusion
total_guard a b conclusion on off = rw (on, off) refl

module _ (P : Percentages) (exact : IsExact P) where
  percent-whole : (n k p : ℕ) → 0 < n → p ≤ 100 → 100 * k ≡ p * n → percent P (k, n) ≡ P.whole p
  unfolding percent
  percent-whole n k p pos small whole =
      let some_total : (n == 0) ≡ false = ground arith in
      rw (percent, some_total) (exact.exact_quotient (100 * k) n p pos (omega arith) whole)

  conclude-whole :
      (a b : ℕ) (jni_acc : P.Float) (near : Bool)
      → a ≤ 100
      → b ≤ 100
      → P.is_le (P.minus (P.times jni_acc (P.whole 100)) (P.whole 10)) (P.whole a) ≡ near
      → conclude P (P.whole a) (P.whole b) jni_acc
        ≡ drawn (ltb ((a - b) + (b - a)) 5) (ltb (b + 5) a) near
  unfolding conclude drawn
  conclude-whole a b jni_acc near l m close_to =
      rw
        (
          conclude,
          exact.exact_distance a b (omega arith) (omega arith),
          exact.exact_order ((a - b) + (b - a)) 5 (omega arith) (omega arith),
          exact.exact_sum b 5 (omega arith) (omega arith),
          exact.exact_order (b + 5) a (omega arith) (omega arith),
          close_to,
        )
        refl

  conclude-accuracies :
      (on_cases off_cases : List CaseRow) (jni_acc : P.Float) (a b : ℕ) (near : Bool)
      → HasAccuracy on_cases a
      → HasAccuracy off_cases b
      → P.is_le (P.minus (P.times jni_acc (P.whole 100)) (P.whole 10)) (P.whole a) ≡ near
      → conclude P
          (percent P (acc on_cases reads_raw))
          (percent P (acc off_cases reads_raw))
          jni_acc
        ≡ drawn (ltb ((a - b) + (b - a)) 5) (ltb (b + 5) a) near
  conclude-accuracies on_cases off_cases jni_acc a b near on off close_to =
      rw
        (
          percent-whole (length on_cases) (count_if reads_raw on_cases) a on.some_cases
              on.at_most_hundred on.accuracy,
          percent-whole (length off_cases) (count_if reads_raw off_cases) b off.some_cases
              off.at_most_hundred off.accuracy,
        )
        (conclude-whole a b jni_acc near on.at_most_hundred off.at_most_hundred close_to)

  report_conclusion-drawn :
      (on_cases off_cases : List CaseRow) (jni_acc : P.Float) (a b : ℕ) (near : Bool)
      → HasAccuracy on_cases a
      → HasAccuracy off_cases b
      → P.is_le (P.minus (P.times jni_acc (P.whole 100)) (P.whole 10)) (P.whole a) ≡ near
      → report_conclusion P on_cases off_cases jni_acc
        ≡ some (drawn (ltb ((a - b) + (b - a)) 5) (ltb (b + 5) a) near)
  unfolding report_conclusion
  report_conclusion-drawn on_cases off_cases jni_acc a b near on off close_to =
      let on_total : (length on_cases == 0) ≡ false = (let pos = on.some_cases in ground arith) in
      let off_total : (length off_cases == 0) ≡ false =
        (let pos = off.some_cases in ground arith) in
      total_guard (length on_cases == 0) (length off_cases == 0) _ on_total off_total
      ∙ ap some (conclude-accuracies on_cases off_cases jni_acc a b near on off close_to)

  -- For two runs with cases whose accuracies are whole percentages, a with thinking on and b with
  -- thinking off, and arithmetic that is exact on small whole numbers, the report concludes that
  -- there is no difference exactly if they are less than five points apart, that thinking recovers
  -- accuracy exactly if a is more than five points above b, near the baseline or not by the test
  -- on a alone, and that thinking off outperforms exactly if a is five points or more below b, or
  -- exactly five points above it.
  pub report_conclusion-whole :
      (on_cases off_cases : List CaseRow) (jni_acc : P.Float) (a b : ℕ)
      → HasAccuracy on_cases a
      → HasAccuracy off_cases b
      → let conclusion = report_conclusion P on_cases off_cases jni_acc in
        let near = P.is_le (P.minus (P.times jni_acc (P.whole 100)) (P.whole 10)) (P.whole a) in
        ((conclusion ≡ some Conclusion.no_difference) ↔ ((a < b + 5) × (b < a + 5)))
        × ((conclusion ≡ some (Conclusion.recovers near)) ↔ (b + 5 < a))
        × ((conclusion ≡ some Conclusion.off_outperforms) ↔ ((a + 5 ≤ b) ⊎ (a ≡ b + 5)))
  report_conclusion-whole on_cases off_cases jni_acc a b on off =
      rw (report_conclusion-drawn on_cases off_cases jni_acc a b _ on off refl) (drawn_iff a b _)

  some_total : {A : Type 0} (x : A) (xs : List A) → (length (x ∷ xs) == 0) ≡ false
  some_total x xs = ground arith

  -- The report raises exactly where one of the runs has no cases.
  report_conclusion-none_iff :
      (on_cases off_cases : List CaseRow) (jni_acc : P.Float)
      → (report_conclusion P on_cases off_cases jni_acc ≡ none)
        ↔ ((on_cases ≡ []) ⊎ (off_cases ≡ []))
  unfolding report_conclusion
  report_conclusion-none_iff [] off_cases jni_acc = (λ h. inl refl, λ h. refl)
  report_conclusion-none_iff (c ∷ on_cases) [] jni_acc =
      (λ h. inr refl, λ h. rw (report_conclusion, some_total c on_cases) refl)
  report_conclusion-none_iff (c ∷ on_cases) (d ∷ off_cases) jni_acc =
      rw (report_conclusion, some_total c on_cases, some_total d off_cases)
        (λ h. absurd cc, λ h. elim h [ inl e ↦ absurd cc | inr e ↦ absurd cc ])
