-- ===== src/Harden/Report.antt =====
-- The result of `Harden`: which step failed, with what message, and whether it says that it was
-- rolled back.
use vmkit_agent.Base.{
  String, Bool, true, false, ◌||◌, List, [], ◌∷◌, ◌++◌, ◌≡◌, refl, ◌==ₛ◌, All, All-append, ◌⊎◌, inl,
  inr, arith, sym, ◌∙◌,
}
use vmkit_agent.Types.{StepResult, completed, failed}
use vmkit_agent.Host.{Host, Trace, Outcome, ok, err, M, return, after, read_dir, Reply}
use vmkit_agent.Harden.Config.{
  HardenConfig, HardenResult, complete_step, fail_step, empty_result, backup_dir,
}
use vmkit_agent.Harden.Rollback.{rollback, restore_if}
use vmkit_agent.Harden.Run.{
  conclude, step, optional, script_result, write_script, auto_update_step, fail2ban_step,
  firewall_step, restart_step, ssh_step, user_step, backup_step, harden,
}

abbrev pub IsCompleted : StepResult → Type 0
IsCompleted s = s.status ≡ completed

-- The steps whose failure starts a rollback.
abbrev pub rolls_back : String → Bool
rolls_back name =
    name ==ₛ "Configure SSH Security"
    || name ==ₛ "Restart SSH and Validate Connection"
    || name ==ₛ "Configure UFW Firewall"

-- A result under way: no step has failed.
record IsClean (r : HardenResult) : Type 0 where
  clean_steps : All IsCompleted r.steps
  not_yet : r.success ≡ false
  no_message : r.error_message ≡ ""
  no_step : r.failed_step ≡ ""
  no_rollback : r.rollback_applied ≡ false

-- The step completed, or it is the one that writes the rollback script.
abbrev pub IsSettled : StepResult → Type 0
IsSettled s = IsCompleted s ⊎ (s.name ≡ "Create Emergency Rollback Script")

All-IsSettled : (ss : List StepResult) → All IsCompleted ss → All IsSettled ss
All-IsSettled [] h = tt
All-IsSettled (s ∷ ss) (c, h) = (inl c, All-IsSettled ss h)

-- A success has no error, no failed step and no mark of a rollback, and each of its steps
-- completed, except that the one that writes the rollback script may be there as failed.
pub record IsSuccess (r : HardenResult) : Type 0 where
  pub settled : All IsSettled r.steps
  pub success : r.success ≡ true
  pub message : r.error_message ≡ ""
  pub step : r.failed_step ≡ ""
  pub rollback : r.rollback_applied ≡ false

-- A failure ends with the one step that failed, under its name and message, after steps that all
-- completed; it has the mark of a rollback exactly for the steps that change SSH or the firewall.
pub record IsFailure (r : HardenResult) : Type 0 where
  pub success : r.success ≡ false
  pub before : List StepResult
  pub completed_before : All IsCompleted before
  pub last_step :
      r.steps
      ≡ before ++ record { name = r.failed_step; status = failed; message = r.error_message } ∷ []
  pub rolled_back : r.rollback_applied ≡ rolls_back r.failed_step

pub data IsReport (r : HardenResult) : Type 0 where
  succeeds : IsSuccess r → IsReport r
  fails : IsFailure r → IsReport r

abbrev pub Reports : Outcome HardenResult → Type 0
Reports (ok r) = IsReport r
Reports (err e) = ⊥

complete_step-IsClean :
    (name note : String) (r : HardenResult) → IsClean r → IsClean (complete_step name note r)
complete_step-IsClean name note r c = record {
  clean_steps = All-append IsCompleted r.steps _ c.clean_steps (refl, tt);
  not_yet = c.not_yet;
  no_message = c.no_message;
  no_step = c.no_step;
  no_rollback = c.no_rollback;
}

abbrev IsOk : {A : Type 0} → Outcome A → Type 0
IsOk (ok a) = Unit {0}
IsOk (err e) = ⊥

restore_if-IsOk : (files : Reply) (host : Host) (w : Trace) → IsOk (restore_if files host w).0
unfolding restore_if
restore_if-IsOk files host w = ground arith

fail_step-IsFailure :
    (name e details : String) (applied : Bool) (r : HardenResult)
    → IsClean r
    → applied ≡ rolls_back name
    → IsFailure
        (record (fail_step name e r) { rollback_applied = applied; rollback_details = details })
fail_step-IsFailure name e details applied r c b = record {
  success = c.not_yet;
  before = r.steps;
  completed_before = c.clean_steps;
  last_step = refl;
  rolled_back = b;
}

script_IsSuccess :
    (r : HardenResult) (o : Outcome (Unit {0}))
    → IsClean r
    → IsSuccess (record (script_result r o) { success = true })
unfolding script_result
script_IsSuccess r (ok _) c = record {
  settled = All-append IsSettled r.steps _ (All-IsSettled r.steps c.clean_steps) (inl refl, tt);
  success = refl;
  message = c.no_message;
  step = c.no_step;
  rollback = c.no_rollback;
}
script_IsSuccess r (err e) c = record {
  settled =
      All-append IsSettled _ (_ ∷ [])
        (All-append IsSettled r.steps (_ ∷ []) (All-IsSettled r.steps c.clean_steps) (inr refl, tt))
        (inl refl, tt);
  success = refl;
  message = c.no_message;
  step = c.no_step;
  rollback = c.no_rollback;
}

module _ (host : Host) where
  noted-Reports :
      (name e : String) (r : HardenResult) (text : Outcome String) (w : Trace)
      → IsClean r
      → rolls_back name ≡ true
      → IsOk text
      → Reports
          (after host
            (λ details.
              return (record (fail_step name e r) {
                rollback_applied = true;
                rollback_details = details;
              }))
            text
            w).0
  noted-Reports name e r (ok details) w c b i =
      fails (fail_step-IsFailure name e details true r c (sym b))
  noted-Reports name e r (err _) w c b i = i

  undone-Reports :
      (name e : String) (r : HardenResult) (w : Trace)
      → IsClean r
      → rolls_back name ≡ true
      → Reports (rollback (fail_step name e r) host w).0
  unfolding rollback
  undone-Reports name e r w c b =
      noted-Reports name e r _ _ c b
        (restore_if-IsOk (host (read_dir backup_dir) w) host (read_dir backup_dir ∷ w))

  conclude-Reports :
      {A : Type 0} (name note : String) (undo : Bool) (next : A → HardenResult → M HardenResult)
      (r : HardenResult) (o : Outcome A) (w : Trace)
      → IsClean r
      → undo ≡ rolls_back name
      → ((a : A) (r' : HardenResult) → IsClean r' → Reports (next a r' host w).0)
      → Reports (conclude name undo note next r o host w).0
  unfolding conclude
  conclude-Reports name note undo next r (ok a) w c b k =
      k a _ (complete_step-IsClean name note r c)
  conclude-Reports name note true next r (err e) w c b k = undone-Reports name e r w c (sym b)
  conclude-Reports name note false next r (err e) w c b k =
      fails
        (fail_step-IsFailure name e r.rollback_details r.rollback_applied r c (c.no_rollback ∙ b))

  step-Reports :
      {A : Type 0} (name note : String) (undo : Bool) (body : M A)
      (next : A → HardenResult → M HardenResult)
      → undo ≡ rolls_back name
      → ((a : A) (r : HardenResult) (w : Trace) → IsClean r → Reports (next a r host w).0)
      → (r : HardenResult) (w : Trace) → IsClean r
      → Reports (step name undo body note next r host w).0
  unfolding step
  step-Reports name note undo body next b k r w c =
      conclude-Reports name note undo next r _ _ c b (λ a r' c'. k a r' _ c')

  optional-Reports :
      (b : Bool) (f g : HardenResult → M HardenResult)
      → ((r : HardenResult) (w : Trace) → IsClean r → Reports (f r host w).0)
      → ((r : HardenResult) (w : Trace) → IsClean r → Reports (g r host w).0)
      → (r : HardenResult) (w : Trace) → IsClean r
      → Reports (optional b f g r host w).0
  unfolding optional
  optional-Reports true f g x y = x
  optional-Reports false f g x y = y

  module _ (cfg : HardenConfig) where
    write_script-Reports :
        (r : HardenResult) (w : Trace) → IsClean r → Reports (write_script cfg r host w).0
    unfolding write_script
    write_script-Reports r w c = succeeds (script_IsSuccess r _ c)

    auto_update_step-Reports :
        (r : HardenResult) (w : Trace) → IsClean r → Reports (auto_update_step cfg r host w).0
    unfolding auto_update_step
    auto_update_step-Reports =
        optional-Reports cfg.enable_auto_updates _ _
          (step-Reports _ _ _ _ _ refl (λ _. write_script-Reports)) write_script-Reports

    fail2ban_step-Reports :
        (r : HardenResult) (w : Trace) → IsClean r → Reports (fail2ban_step cfg r host w).0
    unfolding fail2ban_step
    fail2ban_step-Reports =
        optional-Reports cfg.enable_fail2ban _ _
          (step-Reports _ _ _ _ _ refl (λ _. auto_update_step-Reports)) auto_update_step-Reports

    firewall_step-Reports :
        (r : HardenResult) (w : Trace) → IsClean r → Reports (firewall_step cfg r host w).0
    unfolding firewall_step
    firewall_step-Reports =
        optional-Reports cfg.enable_firewall _ _
          (step-Reports _ _ _ _ _ refl (λ _. fail2ban_step-Reports)) fail2ban_step-Reports

    backup_step-Reports :
        (r : HardenResult) (w : Trace) → IsClean r → Reports (backup_step cfg r host w).0
    unfolding backup_step user_step ssh_step restart_step
    backup_step-Reports = step-Reports _ _ _ _ _ refl λ _.
        step-Reports _ _ _ _ _ refl λ _.
          step-Reports _ _ _ _ _ refl λ _. step-Reports _ _ _ _ _ refl λ _. firewall_step-Reports

-- `Harden` always returns a result. It is a success with no error, no failed step and without the
-- flag for a rollback, whose steps all completed, but that the writing of the rollback script may
-- have failed; or a failure whose last step is the failed one, under the name and the message that
-- the result gives, after steps that all completed. The flag for a rollback, which is set before
-- anything is restored, is set exactly if that step is the SSH configuration, the SSH restart or
-- the firewall.
pub harden-Reports : (cfg : HardenConfig) (host : Host) → Reports (harden cfg host []).0
unfolding harden
harden-Reports cfg host =
    step-Reports host _ _ _ _ _ refl (backup_step-Reports host) empty_result [] (record {
      clean_steps = tt;
      not_yet = refl;
      no_message = refl;
      no_step = refl;
      no_rollback = refl;
    })
