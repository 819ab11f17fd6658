-- ===== src/Training/Fit.antt =====
-- tools/train_phone_routing.py, main: the check and the loading of the adapter, the arguments of the
-- trainer, the calibration, and what the manifest of the run says of them. The calls of the
-- training library are recorded as steps; a calibration that is not there, or that raises, is an
-- argument.
pub mod Manifest
use Prim.Native.String.{◌++◌ as ◌⋯◌}
use pocket_agents_lab.Replay.{nonempty}
use pocket_agents_lab.Prelude.{
  ℕ, ◌*◌, Bool, true, false, not, Option, none, some, String, List, [], ◌∷◌, string_Eq, ◌=?◌,
  if◌then◌else◌,
}

-- adapter_model.safetensors in the directory of the adapter
pub record AdapterFile : Type 0 where
  pub path : String
  pub exists : Bool
  pub sha256 : String

pub data AdapterCheck : Type 0 where
  not_found : AdapterCheck
  mismatch : AdapterCheck
  -- reflex1_adapter_sha, where there is an adapter
  accepted : (sha256 : Option String) → AdapterCheck

-- verify_sha256, `true` where it does not raise
unfoldable pub verify_sha256 : (actual expected : String) → Bool
verify_sha256 actual expected = actual =? expected

unfoldable pub check_adapter : Option AdapterFile → (expected : Option String) → AdapterCheck
unfolding verify_sha256 nonempty
check_adapter none expected = AdapterCheck.accepted none
check_adapter (some file) expected =
    if not file.exists then AdapterCheck.not_found else elim (nonempty expected) [
      | none ↦ AdapterCheck.accepted (some file.sha256)
      | some sha ↦
          if verify_sha256 file.sha256 sha
          then AdapterCheck.accepted (some file.sha256)
          else AdapterCheck.mismatch
    ]

pub data Strategy : Type 0 where
  resume : Strategy
  merge : Strategy

pub record FitArgs : Type 0 where
  pub adapter : Option AdapterFile
  pub adapter_sha256 : Option String
  pub strategy : Strategy
  pub base_model : String
  pub lora_r : ℕ
  pub lora_alpha : ℕ
  pub seed : ℕ
  pub smoke : Bool
  pub batch_size : ℕ
  pub grad_accum : ℕ
  pub max_steps : ℕ

-- The calls that make the model.
pub data LoadStep : Type 0 where
  from_pretrained : (name : String) → LoadStep
  enable_existing : LoadStep
  load_adapter : (path : String) → LoadStep
  merge_and_unload : LoadStep
  get_peft_model : (r alpha random_state : ℕ) → LoadStep

unfoldable pub load_with : FitArgs → Strategy → (adapter : String) → List LoadStep × String
load_with args Strategy.resume adapter =
    (LoadStep.from_pretrained adapter ∷ LoadStep.enable_existing ∷ [], adapter)
load_with args Strategy.merge adapter = (
  LoadStep.from_pretrained args.base_model
      ∷ LoadStep.load_adapter adapter
      ∷ LoadStep.merge_and_unload
      ∷ LoadStep.get_peft_model args.lora_r args.lora_alpha args.seed
      ∷ [],
  "merged:" ⋯ (args.base_model ⋯ ("+" ⋯ adapter)),
)

-- The steps, and checkpoint_source.
unfoldable pub load_model : FitArgs → List LoadStep × String
unfolding load_with
load_model args = elim args.adapter [
  | some file ↦ load_with args args.strategy file.path
  | none ↦ (
    LoadStep.from_pretrained args.base_model
        ∷ LoadStep.get_peft_model args.lora_r args.lora_alpha args.seed
        ∷ [],
    args.base_model,
  )
]

-- The arguments of the trainer that depend on the run.
pub record Schedule : Type 0 where
  pub per_device_batch : ℕ
  pub accumulation : ℕ
  pub warmup_steps : ℕ
  pub max_steps : ℕ
  pub eval_steps : ℕ
  pub save_steps : ℕ

unfoldable pub schedule : FitArgs → Schedule
schedule args = record {
  per_device_batch = if args.smoke then 2 else args.batch_size;
  accumulation = if args.smoke then 1 else args.grad_accum;
  warmup_steps = if args.smoke then 0 else 10;
  max_steps = if args.smoke then 2 else args.max_steps;
  eval_steps = if args.smoke then 2 else 20;
  save_steps = if args.smoke then 2 else 20;
}

-- What the library's calibrate does: it is not there, raises, or returns a method.
pub data Calibrate : Type 0 where
  unavailable : Calibrate
  raises : Calibrate
  returns : (method : String) → Calibrate

pub record CalibConfig : Type 0 where
  pub calibrated : Bool
  pub method : String

-- calib_config and calibration_ok
unfoldable pub calibration : Calibrate → CalibConfig × Bool
calibration Calibrate.unavailable =
    (record { calibrated = false; method = "NOT_CALIBRATED" }, false)
calibration Calibrate.raises = (record { calibrated = false; method = "NOT_CALIBRATED" }, false)
calibration (Calibrate.returns method) = (record { calibrated = true; method = method }, true)

pub record RunManifest : Type 0 where
  pub checkpoint_source : String
  pub adapter_strategy : String
  pub reflex1_adapter_sha256 : Option String
  pub max_steps : ℕ
  pub effective_batch_size : ℕ
  pub calib_config : CalibConfig
  pub calibration_ok : Bool

pub strategy_name : Strategy → String
strategy_name Strategy.resume = "resume"
strategy_name Strategy.merge = "merge"

pub manifest_strategy : FitArgs → String
unfolding strategy_name
manifest_strategy args = elim args.adapter [
  | none ↦ "scratch"
  | some file ↦ strategy_name args.strategy
]

-- What follows the check, unless it raises.
abbrev pub when_accepted : {A : Type 0} → AdapterCheck → (Option String → A) → Option A
when_accepted (AdapterCheck.accepted sha) go_on = some (go_on sha)
when_accepted AdapterCheck.not_found go_on = none
when_accepted AdapterCheck.mismatch go_on = none

-- The manifest, for the hash of the adapter.
unfoldable pub manifest_of : FitArgs → Calibrate → (sha : Option String) → RunManifest
unfolding load_model calibration manifest_strategy
manifest_of args calibrate sha = record {
  checkpoint_source = (load_model args).1;
  adapter_strategy = manifest_strategy args;
  reflex1_adapter_sha256 = sha;
  max_steps = if args.smoke then 2 else args.max_steps;
  effective_batch_size = if args.smoke then 2 else args.batch_size * args.grad_accum;
  calib_config = (calibration calibrate).0;
  calibration_ok = (calibration calibrate).1;
}

-- The steps that were taken, the schedule and the manifest, `none` where the check raises.
unfoldable pub fit : FitArgs → Calibrate → Option (List LoadStep × Schedule × RunManifest)
unfolding check_adapter load_model schedule manifest_of
fit args calibrate =
    when_accepted (check_adapter args.adapter args.adapter_sha256)
      (λ sha. ((load_model args).0, schedule args, manifest_of args calibrate sha))
