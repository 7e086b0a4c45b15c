-- ===== src/Destroy/Laws.antt =====
-- What the result of `Destroy` says.
use vmkit_agent.Base.{
  String, true, false, Option, none, some, List, [], ◌∷◌, ◌++◌, ◌≡◌, refl, sym, ◌∙◌, ◌<>◌, inl, inr,
}
use mathlib.Core.List.{append_assoc, append-nil}
use vmkit_agent.Types.{StepResult, completed, failed}
use vmkit_agent.Types.Sequence.{IsRun, finished, stopped, passed, first_failed, Tells}
use vmkit_agent.Host.{Host, Trace, Outcome, ok, err, Outcome-cases}
use vmkit_agent.Destroy.{
  DestroyConfig, DestroyResult, DestructionStep, steps_of, execute_step, record_step, execute_all,
  step_result, destroy,
}

abbrev names_of : List DestructionStep → List String
names_of [] = []
names_of (s ∷ ss) = s.name ∷ names_of ss

-- The end of the result: as at the start, or what the failed step says.
abbrev Ends : DestroyResult → DestroyResult → Option StepResult → Type 0
Ends start r none =
    (r.success ≡ start.success)
    × (r.failed_step ≡ start.failed_step)
    × (r.error_message ≡ start.error_message)
Ends start r (some s) =
    (r.success ≡ false) × (r.failed_step ≡ s.name) × (r.error_message ≡ s.message)

record IsContinued (start r : DestroyResult) (names : List String) : Type 0 where
  more : List StepResult
  appended : r.steps ≡ start.steps ++ more
  run : IsRun names more
  ends : Ends start r (first_failed more)
  same : r.instance_id ≡ start.instance_id

abbrev Continued : DestroyResult → List String → Outcome DestroyResult → Type 0
Continued start names (ok r) = IsContinued start r names
Continued start names (err e) = ⊥

abbrev completed_as : String → StepResult
completed_as name = record { name = name; status = completed; message = "Successfully completed" }

Ends-steps :
    (start r : DestroyResult) (steps : List StepResult) (o : Option StepResult)
    → Ends (record start { steps = steps }) r o
    → Ends start r o
Ends-steps start r steps none h = h
Ends-steps start r steps (some s) h = h

Continued-cons :
    (start : DestroyResult) (name : String) (names : List String) (o : Outcome DestroyResult)
    → Continued (record start { steps = start.steps ++ completed_as name ∷ [] }) names o
    → Continued start (name ∷ names) o
Continued-cons start name names (ok r) c = record {
  more = completed_as name ∷ c.more;
  appended = c.appended ∙ append_assoc start.steps (completed_as name ∷ []) c.more;
  run = passed c.run;
  ends = Ends-steps start r (start.steps ++ completed_as name ∷ []) (first_failed c.more) c.ends;
  same = c.same;
}
Continued-cons start name names (err _) c = elim c [ ]

execute_all-Continued :
    (ss : List DestructionStep) (start : DestroyResult) (host : Host) (w : Trace)
    → Continued start (names_of ss) (execute_all ss start host w).0
unfolding execute_all execute_step step_result record_step
execute_all-Continued [] start host w = record {
  more = [];
  appended = sym (append-nil start.steps);
  run = finished;
  ends = (refl, refl, refl);
  same = refl;
}
execute_all-Continued (s ∷ ss) start host w = elim (Outcome-cases (s.function host w).0) [
  | inl (_, fine) ↦
      let rest =
        execute_all-Continued ss (record start { steps = start.steps ++ completed_as s.name ∷ [] })
          host (s.function host w).1 in
      let next = Continued-cons start s.name (names_of ss) _ rest in rw fine next
  | inr (e, bad) ↦ rw bad (record {
    more = record { name = s.name; status = failed; message = "Failed: " <> e } ∷ [];
    appended = refl;
    run = stopped;
    ends = (refl, refl, refl);
    same = refl;
  })
]

abbrev step_names : List String
step_names =
    "stop_containers" ∷ "remove_volumes" ∷ "remove_nginx" ∷ "remove_tls_certs" ∷ "cleanup_directory"
    ∷ "cleanup_orphans" ∷ "close_firewall_port" ∷ []

pub record IsDestroyed (cfg : DestroyConfig) (r : DestroyResult) : Type 0 where
  pub instance_id : r.instance_id ≡ cfg.instance_id
  pub steps : IsRun step_names r.steps
  pub tells : Tells r.success r.failed_step r.error_message (first_failed r.steps)

abbrev pub Destroys : DestroyConfig → Outcome DestroyResult → Type 0
Destroys cfg (ok r) = IsDestroyed cfg r
Destroys cfg (err e) = ⊥

Tells-Ends :
    (start r : DestroyResult) (o : Option StepResult)
    → start.success ≡ true
    → start.failed_step ≡ ""
    → start.error_message ≡ ""
    → Ends start r o
    → Tells r.success r.failed_step r.error_message o
Tells-Ends start r none a b c h = (h.0 ∙ a, h.1 ∙ b, h.2 ∙ c)
Tells-Ends start r (some s) a b c h = h

abbrev fresh_result : DestroyConfig → DestroyResult
fresh_result cfg = record {
  success = true;
  instance_id = cfg.instance_id;
  steps = [];
  error_message = "";
  failed_step = "";
}

Destroys-Continued :
    (cfg : DestroyConfig) (o : Outcome DestroyResult)
    → Continued (fresh_result cfg) step_names o
    → Destroys cfg o
Destroys-Continued cfg (ok r) c = record {
  instance_id = c.same;
  steps = rw c.appended c.run;
  tells =
      rw c.appended (Tells-Ends (fresh_result cfg) r (first_failed c.more) refl refl refl c.ends);
}
Destroys-Continued cfg (err _) c = elim c [ ]

-- `Destroy` always returns a result, for the instance it was given. The steps of the result are
-- the seven steps in their order: all of them, each completed, and then the result is a success
-- without an error; or the steps up to one that failed, and then the result is a failure with the
-- name and the message of that step.
pub destroy-Destroys :
    (cfg : DestroyConfig) (host : Host) (w : Trace) → Destroys cfg (destroy cfg host w).0
unfolding destroy steps_of
destroy-Destroys cfg host w =
    Destroys-Continued cfg _ (execute_all-Continued (steps_of cfg) _ host w)
