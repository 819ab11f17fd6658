-- ===== src/Tests/Trainings.antt =====
-- Runs of the carves and of the mixture of two sources.
use pocket_agents_lab.Prelude.{
  zero, suc, refl, true, false, Option, ◌≢◌, inr, codes, map, ◌↔◌, contains, ℕ, String, List, [],
  ◌∷◌, ◌++◌, string_Eq, nat_Eq, some, sort_by, group_by, ◌≡◌, Rearranges, All, length, ◌*◌, ◌<◌,
  arith, ◌/◌, ◌+◌, ◌≤◌, ◌%◌, min, ◌-◌, leb, inl, ap,
}
use pocket_agents_lab.Training.Carve.{sorted_routes, carve_validation, carve_evenly}
use pocket_agents_lab.Training.Carve.Partition.{carve_validation-Rearranges}
use pocket_agents_lab.Training.Carve.Size.{carve_validation-size, carve_evenly-size}
use pocket_agents_lab.Training.Mix.{Floats, IsExact, weighted_mix, weighted_mix-Rearranges}
use pocket_agents_lab.Training.Isolation.{check_split_isolation}
use pocket_agents_lab.Training.Isolation.Apart.{check_split_isolation-passes}
use pocket_agents_lab.Training.Isolation.Carved.{prepare_phone-fails}
use pocket_agents_lab.Training.Prepare.{Built, TrainingSplits, prepare_phone}
use pocket_agents_lab.Training.Adapter.{
  Model, enable_existing_adapter_and_head, enabled, adapter_tensors, head_tensors,
  enable_existing_adapter_and_head-enables,
}
use pocket_agents_lab.Replay.{nonempty}
use pocket_agents_lab.Training.Fit.{
  FitArgs, Strategy, LoadStep, Calibrate, fit, schedule, manifest_of, check_adapter, verify_sha256,
  load_model, load_with,
}
use pocket_agents_lab.Training.Fit.Manifest.{IsTrue, fit-IsTrue}
use pocket_agents_lab.Training.Metrics.{Reals, argmax, masked}
use pocket_agents_lab.Training.Metrics.Unpadded.{IsOptionAt, argmax-IsOptionAt, IsLeast}
use pocket_agents_lab.Tests.Instances.{still}

-- Rows that are their routes.
abbrev route_of_row : String → String
route_of_row row = row

abbrev rows : List String
rows = "answer" ∷ "tool" ∷ "answer" ∷ "tool" ∷ "tool" ∷ []

abbrev keep_rows : List String
keep_rows = "tool" ∷ "tool" ∷ []

abbrev carved_rows : List String
carved_rows = "answer" ∷ "tool" ∷ "answer" ∷ []

carve_validation_run :
    carve_validation still String route_of_row rows 3 7 ≡ some (keep_rows, carved_rows)
unfolding carve_validation sort_by group_by
carve_validation_run = refl

carve_validation-Rearranges_example :
    (out : List String × List String) × (carve_validation still String route_of_row rows 3 7
      ≡ some out)
    × Rearranges (out.0 ++ out.1) rows
carve_validation-Rearranges_example =
    carve_validation-Rearranges still String route_of_row "answer"
      ("tool" ∷ "answer" ∷ "tool" ∷ "tool" ∷ []) 3 7

rows_enough :
    All
      (λ g. 3 / length (sorted_routes String route_of_row rows) ≤ length g.1)
      (sorted_routes String route_of_row rows)
unfolding sort_by group_by
rows_enough = (omega arith, (omega arith, tt))

carve_validation-size_example : length carved_rows ≡ 3
carve_validation-size_example =
    carve_validation-size still String route_of_row "answer"
      ("tool" ∷ "answer" ∷ "tool" ∷ "tool" ∷ []) 3 7 (keep_rows, carved_rows) rows_enough
      (omega arith) carve_validation_run

abbrev left_rows : List String
left_rows = "answer" ∷ "tool" ∷ "tool" ∷ []

abbrev even_rows : List String
even_rows = "answer" ∷ "tool" ∷ []

carve_evenly_run : carve_evenly still String route_of_row rows 3 7 ≡ some (left_rows, even_rows)
unfolding carve_evenly sort_by group_by
carve_evenly_run = refl

carve_evenly-size_example :
    (length even_rows + 3 % length (sorted_routes String route_of_row rows) ≡ 3)
    × Rearranges (left_rows ++ even_rows) rows
carve_evenly-size_example =
    carve_evenly-size still String route_of_row "answer" ("tool" ∷ "answer" ∷ "tool" ∷ "tool" ∷ [])
      3 7 (left_rows, even_rows) rows_enough carve_evenly_run

-- Whole numbers for floating-point ones: a weight is a factor, a ratio is rounded down.
abbrev wholes : Floats
wholes = record {
  Float = ℕ;
  nought = 0;
  one = 1;
  rounded_product = λ n w. some (n * w);
  ratio = λ a b. a / b;
  at_most_one = λ x. min x 1;
}

capped_quotient : (q rest a b : ℕ) → b * q + rest ≡ a → rest < b → b ≤ a → min q 1 ≡ 1
capped_quotient zero rest a b e l m = absurd (omega arith)
capped_quotient (suc q) rest a b e l m = omega arith

wholes-capped : (a b : ℕ) → 0 < b → b ≤ a → min (a / b) 1 ≡ 1
wholes-capped a b pos l = capped_quotient (a / b) (a % b) a b (omega arith) (omega arith) l

whole_factor : (n : ℕ) → n * 1 ≡ n
whole_factor n = omega arith

wholes-IsExact : IsExact wholes
wholes-IsExact = record { capped = wholes-capped; whole = λ n. ap some (whole_factor n) }

weighted_mix-Rearranges_example :
    (combined : List String) × (weighted_mix still wholes String rows keep_rows 2 1 7
      ≡ some (combined, length rows, length keep_rows))
    × Rearranges combined (rows ++ keep_rows)
weighted_mix-Rearranges_example =
    weighted_mix-Rearranges still wholes wholes-IsExact String rows keep_rows 2 1 (length rows * 2)
      (length keep_rows * 1) 7 refl refl (omega arith) (omega arith)

-- Two rows that are their ids.
abbrev id_of_row : String → Option String
id_of_row row = some row

check_split_isolation-passes_example :
    (out : List String × List String) × (carve_validation still String route_of_row
        ("a" ∷ "b" ∷ [])
        1
        7
      ≡ some out)
    × (check_split_isolation String id_of_row route_of_row out.0 out.1 ≡ true)
unfolding contains
check_split_isolation-passes_example =
    check_split_isolation-passes still String route_of_row id_of_row route_of_row "a" ("b" ∷ []) 1 7
      refl (refl, (refl, tt))

abbrev built_whole : List String → Built String
built_whole items = record { items = items; skipped = 0 }

abbrev no_splits : TrainingSplits String
no_splits = record { train = []; val = []; calib = [] }

prepare_phone-fails_example :
    prepare_phone still String String route_of_row built_whole id_of_row route_of_row true false
      ("a" ∷ "b" ∷ "c" ∷ [])
      ("d" ∷ [])
      1
      7
    ≢ inr no_splits
prepare_phone-fails_example =
    prepare_phone-fails still String route_of_row id_of_row route_of_row String built_whole refl
      true false ("a" ∷ "b" ∷ "c" ∷ []) ("d" ∷ []) 1 7 no_splits

abbrev small_model : Model
small_model = record {
  has_head = true;
  params =
      record { name = codes "q.lora_A.w"; in_head = false; numel = 8; requires_grad = false }
      ∷ record { name = codes "q.w"; in_head = false; numel = 64; requires_grad = false }
      ∷ record { name = codes "head.w"; in_head = true; numel = 4; requires_grad = false }
      ∷ [];
}

enable_existing_adapter_and_head-enables_example :
    ((enable_existing_adapter_and_head small_model).0 ≡ map enabled small_model.params)
    × (((enable_existing_adapter_and_head small_model).1
          ≡ some (adapter_tensors small_model.params + head_tensors small_model.params))
        ↔ (0 < adapter_tensors small_model.params))
enable_existing_adapter_and_head-enables_example =
    enable_existing_adapter_and_head-enables small_model refl

abbrev small_run : FitArgs
small_run = record {
  adapter = some (record { path = "runs/reflex-1"; exists = true; sha256 = "c0ffee" });
  adapter_sha256 = some "c0ffee";
  strategy = Strategy.merge;
  base_model = "qwen";
  lora_r = 16;
  lora_alpha = 16;
  seed = 3407;
  smoke = false;
  batch_size = 8;
  grad_accum = 4;
  max_steps = 60;
}

abbrev small_steps : List LoadStep
small_steps =
    LoadStep.from_pretrained "qwen"
    ∷ LoadStep.load_adapter "runs/reflex-1"
    ∷ LoadStep.merge_and_unload
    ∷ LoadStep.get_peft_model 16 16 3407
    ∷ []

fit_run :
    fit small_run Calibrate.raises
    ≡ some (small_steps, schedule small_run, manifest_of small_run Calibrate.raises (some "c0ffee"))
unfolding fit check_adapter verify_sha256 nonempty load_model load_with
fit_run = refl

fit-IsTrue_example :
    IsTrue small_run
      (small_steps, schedule small_run, manifest_of small_run Calibrate.raises (some "c0ffee"))
fit-IsTrue_example =
    fit-IsTrue small_run Calibrate.raises
      (small_steps, schedule small_run, manifest_of small_run Calibrate.raises (some "c0ffee"))
      fit_run

-- Whole numbers from -10, ten of which are taken away; 0 is minus infinity.
abbrev whole_numbers : Reals
whole_numbers = record {
  Float = ℕ;
  zero_float = 10;
  minus_infinity = 0;
  plus = λ a b. a + b - 10;
  is_le = leb;
  macro_f1 = λ labels predictions. 10;
}

whole_numbers-IsLeast : IsLeast whole_numbers
whole_numbers-IsLeast = record { ordered = refl; least = λ x number. ground arith }

abbrev logits_row : List ℕ
logits_row = 12 ∷ 15 ∷ 19 ∷ []

abbrev targets_row : List ℕ
targets_row = 10 ∷ 11 ∷ 9 ∷ []

argmax_run : argmax whole_numbers (masked whole_numbers logits_row targets_row) ≡ 1
unfolding argmax masked
argmax_run = refl

argmax-IsOptionAt_example :
    IsOptionAt whole_numbers
      (argmax whole_numbers (masked whole_numbers logits_row targets_row))
      targets_row
argmax-IsOptionAt_example =
    argmax-IsOptionAt whole_numbers whole_numbers-IsLeast logits_row targets_row (inl (refl, refl))
