-- ===== src/Training/Fit/Manifest.antt =====
-- tools/train_phone_routing.py: what the manifest says of a run is true of it.
use mathlib.Core.Path.{subst}
use pocket_agents_lab.Replay.{nonempty}
use pocket_agents_lab.Training.Fit.{
  AdapterFile, AdapterCheck, verify_sha256, check_adapter, Strategy, FitArgs, LoadStep, load_with,
  load_model, Schedule, schedule, Calibrate, calibration, RunManifest, when_accepted, manifest_of,
  fit,
}
use pocket_agents_lab.Prelude.{
  ◌*◌, Bool, true, false, Option, some, String, List, string_Eq, ◌=?◌, if◌then◌else◌, ◌≡◌, refl, ap,
  sym, ◌∙◌, arith, count_if, Bool-cases, Option-cases, inl, inr,
}

-- A step that makes an adapter trainable: a fresh one, or the one that is there.
abbrev pub trains_adapter : LoadStep → Bool
trains_adapter LoadStep.enable_existing = true
trains_adapter (LoadStep.get_peft_model r alpha random_state) = true
trains_adapter (LoadStep.from_pretrained name) = false
trains_adapter (LoadStep.load_adapter path) = false
trains_adapter LoadStep.merge_and_unload = false

-- One adapter is trained; the manifest has the steps and the batch of the schedule; a run is said to
-- be calibrated exactly where its configuration is; a hash that was asked for is the adapter's.
abbrev pub IsTrue : FitArgs → List LoadStep × Schedule × RunManifest → Type 0
IsTrue args (steps, sched, manifest) =
    (count_if trains_adapter steps ≡ 1)
    × (manifest.max_steps ≡ sched.max_steps)
    × (manifest.effective_batch_size ≡ sched.per_device_batch * sched.accumulation)
    × (manifest.calibration_ok ≡ manifest.calib_config.calibrated)
    × ((file : AdapterFile) (sha : String)
        → args.adapter ≡ some file
        → nonempty args.adapter_sha256 ≡ some sha
        → (manifest.reflex1_adapter_sha256 ≡ some sha) × (file.sha256 ≡ sha))

load_with-one :
    (args : FitArgs) (strategy : Strategy) (adapter : String)
    → count_if trains_adapter (load_with args strategy adapter).0 ≡ 1
unfolding load_with
load_with-one args Strategy.resume adapter = omega arith
load_with-one args Strategy.merge adapter = omega arith

load_model-one : (args : FitArgs) → count_if trains_adapter (load_model args).0 ≡ 1
unfolding load_model
load_model-one args = elim (Option-cases args.adapter) [
  | inl absent ↦ rw (load_model, absent) (omega arith)
  | inr (file, given) ↦ rw (load_model, given) (load_with-one args args.strategy file.path)
]

effective :
    (args : FitArgs)
    → (if args.smoke then 2 else args.batch_size * args.grad_accum)
      ≡ (schedule args).per_device_batch * (schedule args).accumulation
unfolding schedule
effective args = elim (Bool-cases args.smoke) [
  | inl smoke ↦ rw (schedule, smoke) refl
  | inr full ↦ rw (schedule, full) refl
]

calibration_agrees :
    (calibrate : Calibrate) → (calibration calibrate).1 ≡ (calibration calibrate).0.calibrated
unfolding calibration
calibration_agrees Calibrate.unavailable = refl
calibration_agrees Calibrate.raises = refl
calibration_agrees (Calibrate.returns method) = refl

checked :
    (file : AdapterFile) (expected : Option String) (sha : String) (found : Option String)
    → nonempty expected ≡ some sha
    → check_adapter (some file) expected ≡ AdapterCheck.accepted found
    → (found ≡ some sha) × (file.sha256 ≡ sha)
unfolding check_adapter verify_sha256
checked file expected sha found asked h = elim (Bool-cases file.exists) [
  | inr missing ↦ absurd (let raised = rw (check_adapter, missing) at h in cc)
  | inl there ↦ elim (Bool-cases (file.sha256 =? sha)) [
    | inr other ↦ absurd (let raised = rw (check_adapter, there, asked, other) at h in cc)
    | inl same ↦
        let accepted = rw (check_adapter, there, asked, same) at h in
        let equal = (string_Eq.equal_iff file.sha256 sha).0 same in
        let recorded : some file.sha256 ≡ found = cc in (sym recorded ∙ ap some equal, equal)
  ]
]

accepted_of :
    {A : Type 0} (check : AdapterCheck) (go_on : Option String → A) (out : A)
    → when_accepted check go_on ≡ some out
    → (sha : Option String) × (check ≡ AdapterCheck.accepted sha) × (go_on sha ≡ out)
accepted_of (AdapterCheck.accepted sha) go_on out h = (sha, refl, cc)
accepted_of AdapterCheck.not_found go_on out h = absurd cc
accepted_of AdapterCheck.mismatch go_on out h = absurd cc

-- Where the check of the adapter passes, whatever the arguments and the calibration: one adapter
-- is trained, a fresh one or the given one; the manifest has the number of steps of the trainer
-- and the product of its batch size and accumulation; it says calibrated exactly where the
-- configuration does; and if a hash was asked for, it is the adapter's and the one recorded.
pub fit-IsTrue :
    (args : FitArgs) (calibrate : Calibrate) (out : List LoadStep × Schedule × RunManifest)
    → fit args calibrate ≡ some out
    → IsTrue args out
unfolding fit manifest_of
fit-IsTrue args calibrate out h =
    let (sha, accepted, made) =
      accepted_of (check_adapter args.adapter args.adapter_sha256)
        (λ found. ((load_model args).0, schedule args, manifest_of args calibrate found)) out h in
    subst (IsTrue args) made (
      load_model-one args,
      unfold schedule in refl,
      effective args,
      calibration_agrees calibrate,
      λ file wanted given asked.
          checked file args.adapter_sha256 wanted sha asked (rw given at accepted),
    )
