-- ===== src/Mixture/Checks.antt =====
-- The checks of `main` on the parts before they are written. The comparison of the questions' and
-- the gold's keys, which reads their JSON texts, is a parameter.
use pocket_agents_lab.Mixture.{
  Row, Error, leakage, duplicate_ids, schema_mismatch, Result, ok, raise,
}
use pocket_agents_lab.Mixture.Clean.{Unicode, normalize}
use pocket_agents_lab.Prelude.{
  refl, ℕ, Bool, true, false, ◌||◌, not, ◌≡◌, ◌↔◌, String, List, [], ◌∷◌, ◌++◌, map, contains,
  Distinct, list_Eq, nat_Eq, string_Eq, if◌then◌else◌, All, arith,
}

-- bool(xs & ys), as sets
pub has_common : List (List ℕ) → List (List ℕ) → Bool
unfolding contains
has_common [] ys = false
has_common (x ∷ xs) ys = contains x ys || has_common xs ys

-- len(set(ids)) != len(ids)
pub has_duplicates : List String → Bool
unfolding contains
has_duplicates [] = false
has_duplicates (x ∷ xs) = contains x xs || has_duplicates xs

-- `final`: the three parts.
pub record Final : Type 0 where
  pub train : List Row
  pub val : List Row
  pub calibration : List Row

-- A check, and the checks after it.
infixl 5 ◌>>◌
abbrev pub ◌>>◌ : Result (Unit {0}) → Result (Unit {0}) → Result (Unit {0})
raise error >> others = raise error
ok _ >> others = others

abbrev pub refuse_if : Bool → Error → Result (Unit {0})
refuse_if b e = if b then raise e else ok tt

-- The normalised states of a part.
abbrev pub keys : Unicode → List Row → List (List ℕ)
keys u = map (λ row. normalize u row.state)

module _ (u : Unicode) (same_schema : String → String → Bool) where
  pub check_schemas : List Row → Result (Unit {0})
  check_schemas [] = ok tt
  check_schemas (row ∷ rows) =
      if not (same_schema row.questions row.gold) then raise schema_mismatch else check_schemas rows

  -- The body of the loop over `final.values()`.
  pub check_part : List Row → Result (Unit {0})
  unfolding has_duplicates check_schemas
  check_part rows = do
    refuse_if (has_duplicates (map (λ row. row.id) rows)) duplicate_ids
    check_schemas rows

  unfoldable pub check_final : List (List ℕ) → Final → Result (Unit {0})
  unfolding has_common check_part
  check_final original_training final = do
    refuse_if (has_common (keys u final.train) (keys u final.val)) (leakage "train" "val")
    refuse_if (has_common (keys u final.train) (keys u final.calibration))
        (leakage "train" "calibration")
    refuse_if (has_common (keys u final.val) (keys u final.calibration))
        (leakage "val" "calibration")
    refuse_if (has_common (keys u final.val ++ keys u final.calibration) original_training)
        (leakage "val|calibration" "original_training")
    check_part final.train
    check_part final.val
    check_part final.calibration

-- No key is in both lists.
abbrev pub Apart : List (List ℕ) → List (List ℕ) → Type 0
Apart [] ys = Unit
Apart (x ∷ xs) ys = (contains x ys ≡ false) × Apart xs ys

has_common-Apart : (xs ys : List (List ℕ)) → (has_common xs ys ≡ false) ↔ Apart xs ys
unfolding has_common
has_common-Apart [] ys = (λ _. tt, λ _. refl)
has_common-Apart (x ∷ xs) ys = ground (arith, has_common-Apart xs ys)

has_duplicates-Distinct : (xs : List String) → (has_duplicates xs ≡ false) ↔ Distinct xs
unfolding has_duplicates
has_duplicates-Distinct [] = (λ _. tt, λ _. refl)
has_duplicates-Distinct (x ∷ xs) = ground (arith, has_duplicates-Distinct xs)

passes-both :
    (check others : Result (Unit {0}))
    → ((check >> others) ≡ ok tt) ↔ ((check ≡ ok tt) × (others ≡ ok tt))
passes-both (raise error) others = (λ h. cc, λ h. cc)
passes-both (ok _) others = (λ h. (refl, h), λ h. h.1)

refuse_if-passes : (b : Bool) (e : Error) → (refuse_if b e ≡ ok tt) ↔ (b ≡ false)
refuse_if-passes true e = (λ h. cc, λ h. cc)
refuse_if-passes false e = (λ _. refl, λ _. refl)

-- A check for common keys, and the checks after it.
refuse_common-passes :
    (xs ys : List (List ℕ)) (e : Error) (others : Result (Unit {0}))
    → ((refuse_if (has_common xs ys) e >> others) ≡ ok tt) ↔ (Apart xs ys × (others ≡ ok tt))
refuse_common-passes xs ys e others =
    let both = passes-both (refuse_if (has_common xs ys) e) others in
    let apart = refuse_if-passes (has_common xs ys) e in
    (
      λ h. ((has_common-Apart xs ys).0 (apart.0 (both.0 h).0), (both.0 h).1),
      λ v. both.1 (apart.1 ((has_common-Apart xs ys).1 v.0), v.1),
    )

module _ (u : Unicode) (same_schema : String → String → Bool) where
  -- What a part that is written is: its ids are distinct, and every row's gold answers its questions.
  abbrev pub IsSound : List Row → Type 0
  IsSound rows =
      Distinct (map (λ row. row.id) rows)
      × All (λ row. same_schema row.questions row.gold ≡ true) rows

  check_schemas-passes :
      (rows : List Row)
      → (check_schemas u same_schema rows ≡ ok tt)
        ↔ All (λ row. same_schema row.questions row.gold ≡ true) rows
  unfolding check_schemas
  check_schemas-passes [] = (λ _. tt, λ _. refl)
  check_schemas-passes (row ∷ rows) = ground (arith, check_schemas-passes rows)

  check_part-passes : (rows : List Row) → (check_part u same_schema rows ≡ ok tt) ↔ IsSound rows
  unfolding check_part
  check_part-passes rows =
      let ids = map (λ (row : Row). row.id) rows in
      let both =
        passes-both (refuse_if (has_duplicates ids) duplicate_ids)
          (check_schemas u same_schema rows) in
      let unique = refuse_if-passes (has_duplicates ids) duplicate_ids in
      (
        λ h. (
          (has_duplicates-Distinct ids).0 (unique.0 (both.0 h).0),
          (check_schemas-passes rows).0 (both.0 h).1,
        ),
        λ v.
            both.1
              (unique.1 ((has_duplicates-Distinct ids).1 v.0), (check_schemas-passes rows).1 v.1),
      )

  -- What is frozen: no normalised state is in two parts, and none of the validation and calibration
  -- parts is one of the original training.
  pub record IsFrozen (original_training : List (List ℕ)) (final : Final) : Type 0 where
    pub train_val : Apart (keys u final.train) (keys u final.val)
    pub train_calibration : Apart (keys u final.train) (keys u final.calibration)
    pub val_calibration : Apart (keys u final.val) (keys u final.calibration)
    pub held_out : Apart (keys u final.val ++ keys u final.calibration) original_training
    pub train_sound : IsSound final.train
    pub val_sound : IsSound final.val
    pub calibration_sound : IsSound final.calibration

  -- The checks pass exactly for parts that share no normalised state, with validation and
  -- calibration parts that share none with the original training, distinct ids in each part, and a
  -- gold with the keys of its questions in each row.
  pub check_final-IsFrozen :
      (original_training : List (List ℕ)) (final : Final)
      → (check_final u same_schema original_training final ≡ ok tt)
        ↔ IsFrozen original_training final
  unfolding check_final
  check_final-IsFrozen original_training final =
      let train = keys u final.train in
      let val = keys u final.val in
      let calibration = keys u final.calibration in
      let last_two =
        passes-both (check_part u same_schema final.val)
          (check_part u same_schema final.calibration) in
      let parts =
        passes-both (check_part u same_schema final.train)
          (check_part u same_schema final.val >> check_part u same_schema final.calibration) in
      let held = refuse_common-passes (val ++ calibration) original_training _ _ in
      let third = refuse_common-passes val calibration _ _ in
      let second = refuse_common-passes train calibration _ _ in
      let first = refuse_common-passes train val _ _ in
      (
        λ h.
            let (a, h₁) = first.0 h in
            let (b, h₂) = second.0 h₁ in
            let (c, h₃) = third.0 h₂ in
            let (d, h₄) = held.0 h₃ in
            let (e, h₅) = parts.0 h₄ in
            let (f, g) = last_two.0 h₅ in
            record {
              train_val = a;
              train_calibration = b;
              val_calibration = c;
              held_out = d;
              train_sound = (check_part-passes final.train).0 e;
              val_sound = (check_part-passes final.val).0 f;
              calibration_sound = (check_part-passes final.calibration).0 g;
            },
        λ v. first.1 (
          v.train_val,
          second.1 (
            v.train_calibration,
            third.1 (
              v.val_calibration,
              held.1 (
                v.held_out,
                parts.1 (
                  (check_part-passes final.train).1 v.train_sound,
                  last_two.1 (
                    (check_part-passes final.val).1 v.val_sound,
                    (check_part-passes final.calibration).1 v.calibration_sound,
                  ),
                ),
              ),
            ),
          ),
        ),
      )
