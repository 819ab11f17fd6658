-- ===== src/Comparison/Thinking.antt =====
-- tools/analyze_thinking_comparison.py: the accuracies, by category too, and the conclusion that
-- the report draws. Floating-point numbers are a parameter; the text of the report is modelled by
-- the conclusion alone.
pub mod Conclusions
pub mod Accuracy
use pocket_agents_lab.Prelude.{
  ℕ, ◌+◌, ◌*◌, Bool, true, false, ◌&&◌, ◌||◌, Option, none, some, String, List, [], ◌∷◌, map,
  if◌then◌else◌, Text, ◌==◌, ltb, leb, length, count_if, group_by, sort_by, list_Eq, nat_Eq,
}
use pocket_agents_lab.Benchmark.Run.{CaseRow}
use pocket_agents_lab.Comparison.{category}

-- acc(cases, key), where the key is given by what it reads
abbrev pub acc : List CaseRow → (CaseRow → Bool) → ℕ × ℕ
acc cases key = (count_if key cases, length cases)

-- a <= b on texts, by code points
abbrev pub text_le : Text → Text → Bool
text_le [] b = true
text_le (x ∷ a) [] = false
text_le (x ∷ a) (y ∷ b) = ltb x y || ((x == y) && text_le a b)

abbrev pub group_le : Text × List CaseRow → Text × List CaseRow → Bool
group_le g h = text_le g.0 h.0

abbrev pub acc_of : (CaseRow → Bool) → Text × List CaseRow → Text × ℕ × ℕ
acc_of key group = (group.0, count_if key group.1, length group.1)

unfoldable pub per_category : List CaseRow → (CaseRow → Bool) → List (Text × ℕ × ℕ)
unfolding group_by sort_by
per_category cases key = map (acc_of key) (sort_by group_le (group_by category cases))

pub data Conclusion : Type 0 where
  no_difference : Conclusion
  -- Thinking recovers accuracy; `near_baseline` tells whether it comes close to the baseline.
  recovers : (near_baseline : Bool) → Conclusion
  off_outperforms : Conclusion

-- The floating-point numbers of the percentages: `whole n` is the number n, `quotient a b` is a / b
-- for two integers, and `is_lt a b` is a < b, as `is_le a b` is a <= b.
pub record Percentages : Type 1 where
  pub Float : Type 0
  pub whole : ℕ → Float
  pub quotient : ℕ → ℕ → Float
  pub plus : Float → Float → Float
  pub minus : Float → Float → Float
  pub times : Float → Float → Float
  pub abs : Float → Float
  pub is_lt : Float → Float → Bool
  pub is_le : Float → Float → Bool

module _ (P : Percentages) where
  -- 100 * correct / total if total else 0.0
  unfoldable pub percent : ℕ × ℕ → P.Float
  percent (correct, total) = if total == 0 then P.whole 0 else P.quotient (100 * correct) total

  -- abs(on_pct - off_pct) < 5, then on_pct > off_pct + 5, with on_pct >= jni_acc * 100 - 10
  unfoldable pub conclude : (on_pct off_pct jni_acc : P.Float) → Conclusion
  conclude on_pct off_pct jni_acc =
      if P.is_lt (P.abs (P.minus on_pct off_pct)) (P.whole 5)
      then Conclusion.no_difference
      else if P.is_lt (P.plus off_pct (P.whole 5)) on_pct
      then Conclusion.recovers
          (P.is_le (P.minus (P.times jni_acc (P.whole 100)) (P.whole 10)) on_pct)
      else Conclusion.off_outperforms

abbrev pub reads_raw : CaseRow → Bool
reads_raw row = row.raw_correct

-- `none` where the report raises: it divides by both totals.
unfoldable pub report_conclusion :
    (P : Percentages) → (on_cases off_cases : List CaseRow) → P.Float → Option Conclusion
unfolding percent conclude
report_conclusion P on_cases off_cases jni_acc =
    if (length on_cases == 0) || (length off_cases == 0)
    then none
    else some (
        conclude P (percent P (acc on_cases reads_raw)) (percent P (acc off_cases reads_raw))
          jni_acc)
