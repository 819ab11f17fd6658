-- ===== src/Benchmark/Thinking/Fuel.antt =====
-- tools/benchmark_decision_android.py: the removal of the thinking tags does not depend on its fuel.
use pocket_agents_lab.Prelude.{
  ℕ, zero, suc, ◌≤◌, ◌<◌, some, [], ◌∷◌, ◌≡◌, refl, ap, Text, codes, has_prefix, drop_prefix,
  length, arith, Bool-cases, Option-cases, inl, inr,
}
use pocket_agents_lab.Benchmark.Thinking.{open_tag, close_tag, after_close, think_end, sub_think}

length-drop_prefix-le : (prefix text : Text) → length (drop_prefix prefix text) ≤ length text
unfolding drop_prefix
length-drop_prefix-le [] text = omega arith
length-drop_prefix-le (p ∷ prefix) [] = omega arith
length-drop_prefix-le (p ∷ prefix) (c ∷ text) = omega (arith, length-drop_prefix-le prefix text)

length-after_close-le :
    (text rest : Text) → after_close text ≡ some rest → length rest ≤ length text
unfolding after_close
length-after_close-le [] rest h = absurd cc
length-after_close-le (c ∷ text) rest h = elim (Bool-cases (has_prefix close_tag (c ∷ text))) [
  | inl closes ↦
      let found = rw (after_close, closes) at h in
      let same : drop_prefix close_tag (c ∷ text) ≡ rest = cc in
      omega (arith, ap length same, length-drop_prefix-le close_tag (c ∷ text))
  | inr goes_on ↦ omega (arith, length-after_close-le text rest (rw (after_close, goes_on) at h))
]

-- What a match leaves is shorter.
length-think_end-lt :
    (c : ℕ) (text rest : Text) → think_end (c ∷ text) ≡ some rest → length rest < length (c ∷ text)
unfolding think_end drop_prefix
length-think_end-lt c text rest h = elim (Bool-cases (has_prefix open_tag (c ∷ text))) [
  | inl opens ↦ omega (
    arith,
    length-after_close-le (drop_prefix (codes "think>") text) rest (rw (think_end, opens) at h),
    length-drop_prefix-le (codes "think>") text,
  )
  | inr plain ↦ absurd (let nothing = rw (think_end, plain) at h in cc)
]

-- With any two amounts of fuel that are at least the text's length, the result is the same.
sub_think-fuel :
    (m n : ℕ) (text : Text)
    → length text ≤ m
    → length text ≤ n
    → sub_think m text ≡ sub_think n text
unfolding sub_think
sub_think-fuel zero zero text hm hn = refl
sub_think-fuel zero (suc n) [] hm hn = refl
sub_think-fuel zero (suc n) (c ∷ text) hm hn = absurd (omega arith)
sub_think-fuel (suc m) zero [] hm hn = refl
sub_think-fuel (suc m) zero (c ∷ text) hm hn = absurd (omega arith)
sub_think-fuel (suc m) (suc n) [] hm hn = refl
sub_think-fuel (suc m) (suc n) (c ∷ text) hm hn = elim (Option-cases (think_end (c ∷ text))) [
  | inl plain ↦
      rw (sub_think, plain) (ap (λ t. c ∷ t) (sub_think-fuel m n text (omega arith) (omega arith)))
  | inr (rest, matched) ↦
      let shorter = length-think_end-lt c text rest matched in
      rw (sub_think, matched) (sub_think-fuel m n rest (omega arith) (omega arith))
]
