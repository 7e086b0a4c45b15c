-- ===== src/Stage/Told.antt =====
-- What the result of a command that follows its plan tells.
use vmkit_agent.Base.{String, Option, none, some, List, [], ◌≡◌, refl, sym}
use mathlib.Core.Path.{subst}
use vmkit_agent.Types.{StepResult, failed}
use vmkit_agent.Types.Sequence.{IsRun, finished, stopped, passed, first_failed, Tells}
use vmkit_agent.Host.{Host, Trace}
use vmkit_agent.Stage.{Progress, Flow, begin, succeeds}
use vmkit_agent.Stage.Plan.{Advances, StopsAt, stay, go, stop, past, Ended, Follows}

Advances-IsRun :
    {ns ks : List String} {ss : List StepResult}
    → Advances ns ss ks
    → ks ≡ []
    → IsRun ns ss × (first_failed ss ≡ none)
Advances-IsRun stay e = (subst (λ ns. IsRun ns []) (sym e) finished, refl)
Advances-IsRun (go a) e = let (run, calm) = Advances-IsRun a e in (passed run, calm)

StopsAt-IsRun :
    {n m : String} {ns : List String} {ss : List StepResult}
    → StopsAt n m ns ss
    → IsRun ns ss × (first_failed ss ≡ some (record { name = n; status = failed; message = m }))
StopsAt-IsRun stop = (stopped, refl)
StopsAt-IsRun (past s) = let (run, last) = StopsAt-IsRun s in (passed run, last)

module _ {X : Type 0} where
  Ended-Tells :
      {A : Type 0} (ns : List String) (x : X) (o : Option A) (p : Progress X)
      → Ended ns [] (begin x) o p
      → IsRun ns p.steps × Tells (succeeds o) p.failed_step p.error_message (first_failed p.steps)
  Ended-Tells ns x none p (new, grown, stops) =
      let (run, last) = StopsAt-IsRun stops in rw grown (run, rw last (refl, refl, refl))
  Ended-Tells ns x (some a) p (new, grown, (led, name, message)) =
      let (run, last) = Advances-IsRun led refl in rw grown (run, rw last (refl, name, message))

  -- A whole command: the steps are a run of its plan, and its result tells how it ended.
  pub Follows-Tells :
      {A : Type 0} {ns : List String} {f : Flow X A}
      → Follows ns [] f
      → (x : X) (host : Host) (w : Trace)
      → let (o, p, _) = f host (begin x) w in
        IsRun ns p.steps × Tells (succeeds o) p.failed_step p.error_message (first_failed p.steps)
  Follows-Tells {ns} {f} h x host w =
      Ended-Tells ns x (f host (begin x) w).0 (f host (begin x) w).1 (h.ended host (begin x) w)
