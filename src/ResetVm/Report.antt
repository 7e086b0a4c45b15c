-- ===== src/ResetVm/Report.antt =====
-- What the result of `Reset` says.
use vmkit_agent.Base.{
  ℕ, Bool, String, ◌<>◌, ◌∙◌, All-append, itoa, length, true, false, none, some, List, [], ◌∷◌,
  ◌++◌, ◌≡◌, ◌≢◌, refl, ap, All, Option-cases, inl, inr, arith, is_empty,
}
use vmkit_agent.Types.{Status, StepResult, in_progress, completed, failed}
use vmkit_agent.Types.Sequence.{first_failed, Tells}
use vmkit_agent.Host.{Host, Trace, Outcome, ok, err}
use vmkit_agent.ResetVm.{
  ResetVmConfig, ResetVmResult, enter, reset, status_of, step_of, with_note, purge_message, left_by,
  first_failure, base_of, allowed_of,
}
use vmkit_agent.ResetVm.Steps.{
  list_instance_subdirs, purge_listed, prune_docker, reset_ufw, cleanup_stale_configs,
}

abbrev names : List StepResult → List String
names [] = []
names (s ∷ ss) = s.name ∷ names ss

abbrev statuses : List StepResult → List Status
statuses [] = []
statuses (s ∷ ss) = s.status ∷ statuses ss

-- Each step has a name, and completed or failed.
abbrev IsDone : StepResult → Type 0
IsDone s = (is_empty s.name ≡ false) × (s.status ≢ in_progress)

record IsSound (ns : List String) (sts : List Status) (r : ResetVmResult) : Type 0 where
  ended : statuses r.steps ≡ sts
  named : names r.steps ≡ ns
  done : All IsDone r.steps
  tells : Tells r.success r.failed_step r.error_message (first_failed r.steps)

names-append : (xs ys : List StepResult) → names (xs ++ ys) ≡ names xs ++ names ys
names-append [] ys = refl
names-append (x ∷ xs) ys = ap (◌∷◌ x.name) (names-append xs ys)

statuses-append : (xs ys : List StepResult) → statuses (xs ++ ys) ≡ statuses xs ++ statuses ys
statuses-append [] ys = refl
statuses-append (x ∷ xs) ys = ap (◌∷◌ x.status) (statuses-append xs ys)

first_failed-append :
    (xs ys : List StepResult) → first_failed xs ≡ none → first_failed (xs ++ ys) ≡ first_failed ys
first_failed-append [] ys h = refl
first_failed-append (x ∷ xs) ys h = ground (arith, first_failed-append xs ys)

first_failed-kept :
    (xs ys : List StepResult) (s : StepResult)
    → first_failed xs ≡ some s
    → first_failed (xs ++ ys) ≡ some s
first_failed-kept [] ys s h = ground arith
first_failed-kept (x ∷ xs) ys s h = ground (arith, first_failed-kept xs ys s)

first_failed-named :
    (xs : List StepResult) (s : StepResult)
    → All IsDone xs
    → first_failed xs ≡ some s
    → is_empty s.name ≡ false
first_failed-named [] s d h = ground arith
first_failed-named (x ∷ xs) s (named, d) h = ground (arith, first_failed-named xs s d)

enter-Tells :
    (r : ResetVmResult) (name : String) (st : Status) (message : String)
    → st ≢ in_progress
    → All IsDone r.steps
    → Tells r.success r.failed_step r.error_message (first_failed r.steps)
    → let s : StepResult = record { name = name; status = st; message = message } in
      let r' = enter r s in
      Tells r'.success r'.failed_step r'.error_message (first_failed (r.steps ++ s ∷ []))
enter-Tells r name completed message h d t = elim (Option-cases (first_failed r.steps)) [
  | inl clean ↦ rw (first_failed-append r.steps _ clean) (rw clean at t)
  | inr (f, bad) ↦ rw (first_failed-kept r.steps _ f bad) (rw bad at t)
]
enter-Tells r name failed message h d t = elim (Option-cases (first_failed r.steps)) [
  | inl clean ↦
      let (_, step, text) = rw clean at t in
      rw (first_failed-append r.steps _ clean, step) (refl, refl, refl)
  | inr (f, bad) ↦
      let (_, step, text) = rw bad at t in
      rw (first_failed-kept r.steps _ f bad, step, first_failed-named r.steps f d bad)
        (refl, refl, text)
]
enter-Tells r name in_progress message h d t = elim (h refl) [ ]

steps-first_failure :
    (st : Status) (s : StepResult) (r : ResetVmResult) → (first_failure st s r).steps ≡ r.steps
steps-first_failure completed s r = refl
steps-first_failure failed s r = refl
steps-first_failure in_progress s r = refl

enter-IsSound :
    (r : ResetVmResult) (ns : List String) (sts : List Status) (s : StepResult)
    → IsDone s
    → IsSound ns sts r
    → IsSound (ns ++ s.name ∷ []) (sts ++ s.status ∷ []) (enter r s)
enter-IsSound r ns sts s done i =
    let grown : (enter r s).steps ≡ r.steps ++ s ∷ [] =
      steps-first_failure s.status s (record r { steps = r.steps ++ s ∷ [] }) in
    record {
      ended = rw grown (statuses-append r.steps (s ∷ []) ∙ ap (λ ms. ms ++ s.status ∷ []) i.ended);
      named = rw grown (names-append r.steps (s ∷ []) ∙ ap (λ ms. ms ++ s.name ∷ []) i.named);
      done = rw grown (All-append IsDone r.steps (s ∷ []) i.done (done, tt));
      tells = rw grown (enter-Tells r s.name s.status s.message done.1 i.done i.tells);
    }

IsSound-ufw :
    (r : ResetVmResult) (ns : List String) (sts : List Status) (removed : List ℕ)
    → IsSound ns sts r
    → IsSound ns sts (record r { removed_ufw_rules = removed })
IsSound-ufw r ns sts removed i = record {
  ended = i.ended;
  named = i.named;
  done = i.done;
  tells = i.tells;
}

IsSound-files :
    (r : ResetVmResult) (ns : List String) (sts : List Status) (removed : List String)
    → IsSound ns sts r
    → IsSound ns sts (record r { removed_config_files = removed })
IsSound-files r ns sts removed i = record {
  ended = i.ended;
  named = i.named;
  done = i.done;
  tells = i.tells;
}

status_of-IsDone : {A : Type 0} (o : Outcome A) → status_of o ≢ in_progress
status_of-IsDone (ok a) h = cc
status_of-IsDone (err e) h = cc

abbrev worked : {A : Type 0} → Outcome A → Bool
worked (ok a) = true
worked (err e) = false

-- What the four operations come to when each is run after the calls of the one before it, and the
-- calls that they make
pub record FourRuns : Type 0 where
  pub ended : List Bool
  pub calls : Trace

abbrev pub four_runs : ResetVmConfig → Host → Trace → FourRuns
four_runs cfg host w =
    let (listed, w₁) = list_instance_subdirs (base_of cfg) host w in
    let (purged, w₂) = purge_listed (base_of cfg) listed host w₁ in
    let (pruned, w₃) = prune_docker host w₂ in
    let (ufw, w₄) = reset_ufw (allowed_of cfg.allowed_ports) host w₃ in
    let (configs, w₅) = cleanup_stale_configs host w₄ in
    record { ended = worked purged ∷ worked pruned ∷ worked ufw ∷ worked configs ∷ []; calls = w₅ }

-- The step completed exactly if its operation ended without an error, and else it failed.
abbrev pub tells_of : Bool → Status
tells_of true = completed
tells_of false = failed

abbrev pub all_told : List Bool → List Status
all_told [] = []
all_told (b ∷ bs) = tells_of b ∷ all_told bs

status_of-tells_of : {A : Type 0} (o : Outcome A) → status_of o ≡ tells_of (worked o)
status_of-tells_of (ok a) = refl
status_of-tells_of (err e) = refl

-- What `Reset` promises of its result and of its calls.
pub record IsReset (runs : FourRuns) (r : ResetVmResult) (calls : Trace) : Type 0 where
  pub steps :
      names r.steps ≡ "purge_instances" ∷ "prune_docker" ∷ "reset_ufw" ∷ "cleanup_configs" ∷ []
  pub ended : statuses r.steps ≡ all_told runs.ended
  pub made : calls ≡ runs.calls
  pub tells : Tells r.success r.failed_step r.error_message (first_failed r.steps)

abbrev pub Resets : FourRuns → Outcome ResetVmResult × Trace → Type 0
Resets runs (ok r, calls) = IsReset runs r calls
Resets runs (err e, calls) = ⊥

-- `Reset` always returns a result, after the calls of the purge, of the pruning, of the firewall's
-- reset and of the cleanup, one after the other, whichever of them failed. Its four steps are
-- theirs in this order: each has completed if that operation ended without an error, and failed
-- otherwise. It is a success without an error if no step failed; otherwise it is a failure with the
-- name and the message of the first step that failed.
pub reset-Resets :
    (cfg : ResetVmConfig) (host : Host) (w : Trace)
    → Resets (four_runs cfg host w) (reset cfg host w)
unfolding reset
reset-Resets cfg host w =
    let listed = list_instance_subdirs (base_of cfg) host w in
    let purged = purge_listed (base_of cfg) listed.0 host listed.1 in
    let pruned = prune_docker host purged.1 in
    let ufw = reset_ufw (allowed_of cfg.allowed_ports) host pruned.1 in
    let configs = cleanup_stale_configs host ufw.1 in
    let empty : ResetVmResult = record {
      success = true;
      steps = [];
      purged_instances = left_by listed.0;
      removed_ufw_rules = [];
      removed_config_files = [];
      error_message = "";
      failed_step = "";
    } in
    let i₁ =
      enter-IsSound empty [] []
        (purge_message (left_by listed.0) (step_of "purge_instances" purged.0))
        (refl, status_of-IsDone purged.0)
        (record { ended = refl; named = refl; done = tt; tells = (refl, refl, refl) }) in
    let i₂ =
      enter-IsSound _ _ _ (step_of "prune_docker" pruned.0) (refl, status_of-IsDone pruned.0) i₁ in
    let i₃ =
      enter-IsSound _ _ _
        (with_note (step_of "reset_ufw" ufw.0)
          ("deleted " <> itoa (length (left_by ufw.0)) <> " rule(s)"))
        (refl, status_of-IsDone ufw.0) (IsSound-ufw _ _ _ (left_by ufw.0) i₂) in
    let i₄ =
      enter-IsSound _ _ _
        (with_note (step_of "cleanup_configs" configs.0)
          ("removed " <> itoa (length (left_by configs.0)) <> " file(s)"))
        (refl, status_of-IsDone configs.0) (IsSound-files _ _ _ (left_by configs.0) i₃) in
    record {
      steps = i₄.named;
      ended =
          rw
            (
              ← status_of-tells_of purged.0,
              ← status_of-tells_of pruned.0,
              ← status_of-tells_of ufw.0,
              ← status_of-tells_of configs.0,
            )
            i₄.ended;
      made = refl;
      tells = i₄.tells;
    }
