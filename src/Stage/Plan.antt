-- ===== src/Stage/Plan.antt =====
-- A command that follows its plan: the names of its steps, in their order.
use vmkit_agent.Base.{
  String, Bool, true, false, Option, none, some, List, [], ◌∷◌, ◌++◌, ◌≡◌, refl, sym, ap, ◌∙◌,
  if◌then◌else◌,
}
use mathlib.Core.List.{append_assoc, append-nil}
use vmkit_agent.Types.{StepResult, completed, failed}
use vmkit_agent.Host.{Call, Host, Trace, Outcome, ok, err, M}
use vmkit_agent.Stage.{
  Progress, Flow, continue, ◌>>=◌, return, ask, set_extra, pass, within, settled, stage, deferred,
  or_else, recovered, optional, ◌>>◌,
}

-- These completed steps lead from a plan to what is left of it.
pub data Advances : List String → List StepResult → List String → Type 0 where
  stay : {ns : List String} → Advances ns [] ns
  go :
      {n m : String} {ns ks : List String} {ss : List StepResult}
      → Advances ns ss ks
      → Advances (n ∷ ns) (record { name = n; status = completed; message = m } ∷ ss) ks

-- These steps end with the one that failed, of this name and with this message.
pub data StopsAt (name message : String) : List String → List StepResult → Type 0 where
  stop :
      {ns : List String}
      → StopsAt name message
          (name ∷ ns)
          (record { name = name; status = failed; message = message } ∷ [])
  past :
      {n m : String} {ns : List String} {ss : List StepResult}
      → StopsAt name message ns ss
      → StopsAt name message (n ∷ ns) (record { name = n; status = completed; message = m } ∷ ss)

Advances-append :
    {ns ks ls : List String} {ss ts : List StepResult}
    → Advances ns ss ks
    → Advances ks ts ls
    → Advances ns (ss ++ ts) ls
Advances-append stay b = b
Advances-append (go a) b = go (Advances-append a b)

Advances-StopsAt :
    {name message : String} {ns ks : List String} {ss ts : List StepResult}
    → Advances ns ss ks
    → StopsAt name message ks ts
    → StopsAt name message ns (ss ++ ts)
Advances-StopsAt stay b = b
Advances-StopsAt (go a) b = past (Advances-StopsAt a b)

abbrev pub Ends :
    {A : Type 0}
    → List String
    → List String
    → List StepResult
    → String
    → String
    → String
    → String
    → Option A
    → Type 0
Ends ns ks new name message name' message' (some a) =
    Advances ns new ks × (name' ≡ name) × (message' ≡ message)
Ends ns ks new name message name' message' none = StopsAt name' message' ns new

-- From a state in which `ns` is still to be done, the flow comes to one in which `ks` is, or it
-- stops at a step of `ns` and says so.
abbrev pub Ended :
    {X A : Type 0} → List String → List String → Progress X → Option A → Progress X → Type 0
Ended ns ks p o p' =
    (new : List StepResult) × (p'.steps ≡ p.steps ++ new)
    × Ends ns ks new p.failed_step p.error_message p'.failed_step p'.error_message o

-- From a state in which `ns` is still to be done, the flow comes to one in which `ks` is, or it
-- stops at a step of `ns` and says so.
pub record Follows {X A : Type 0} (ns ks : List String) (f : Flow X A) : Type 0 where
  pub ended :
      (host : Host) (p : Progress X) (w : Trace) → Ended ns ks p (f host p w).0 (f host p w).1

joined :
    {B : Type 0} (ns ks ls : List String) (new more : List StepResult)
    (name message name' message' name'' message'' : String) (o : Option B)
    → Advances ns new ks
    → name' ≡ name
    → message' ≡ message
    → Ends ks ls more name' message' name'' message'' o
    → Ends ns ls (new ++ more) name message name'' message'' o
joined ns ks ls new more name message name' message' name'' message'' none led e f stops =
    Advances-StopsAt led stops
joined ns ks ls new more name message name' message' name'' message'' (some b) led e f
      (led', e', f') =
    (Advances-append led led', e' ∙ e, f' ∙ f)

module _ {X : Type 0} where
  untouched : {A : Type 0} (ns : List String) (p : Progress X) (a : A) → Ended ns ns p (some a) p
  untouched ns p a = ([], sym (append-nil _), (stay, refl, refl))

  pub return-Follows : {A : Type 0} {ns : List String} (a : A) → Follows {X = X} ns ns (return a)
  unfolding return
  return-Follows a = record { ended = λ host p w. untouched _ p a }

  pub ask-Follows : {ns : List String} (c : Call) → Follows {X = X} ns ns (ask c)
  unfolding ask
  ask-Follows c = record { ended = λ host p w. untouched _ p (host c w) }

  pub set_extra-Follows : {ns : List String} (f : X → X) → Follows ns ns (set_extra f)
  unfolding set_extra
  set_extra-Follows f = record { ended = λ host p w. ([], sym (append-nil _), (stay, refl, refl)) }

  pub pass-Follows :
      {n : String} {ns : List String} (note : String) → Follows {X = X} (n ∷ ns) ns (pass n note)
  unfolding pass
  pass-Follows note = record { ended = λ host p w. (_, refl, (go stay, refl, refl)) }

  settled-Ended :
      {A : Type 0} (n : String) (ns : List String) (o : Outcome A) (p : Progress X) (w : Trace)
      → Ended (n ∷ ns) (n ∷ ns) p (settled n o p w).0 (settled n o p w).1
  settled-Ended n ns (ok a) p w = untouched _ p a
  settled-Ended n ns (err e) p w = (_, refl, stop)

  pub within-Follows :
      {A : Type 0} {n : String} {ns : List String} (m : M A)
      → Follows {X = X} (n ∷ ns) (n ∷ ns) (within n m)
  unfolding within
  within-Follows {n} {ns} m = record {
    ended = λ host p w. settled-Ended n ns (m host w).0 p (m host w).1;
  }

  continue-Ended :
      {A B : Type 0} (ns ks ls : List String) (g : A → Flow X B) (host : Host) (p p' : Progress X)
      (o : Option A) (w : Trace)
      → ((a : A) → Follows ks ls (g a))
      → Ended ns ks p o p'
      → Ended ns ls p (continue host g o p' w).0 (continue host g o p' w).1
  continue-Ended ns ks ls g host p p' none w follows before = before
  continue-Ended ns ks ls g host p p' (some a) w follows (new, grown, (led, name, message)) =
      let (more, grown', ends) = (follows a).ended host p' w in
      (
        new ++ more,
        grown' ∙ ap (λ ss. ss ++ more) grown ∙ append_assoc p.steps new more,
        joined ns ks ls new more _ _ _ _ _ _ _ led name message ends,
      )

  -- One flow after another
  pub bind-Follows :
      {A B : Type 0} {ns ks ls : List String} {f : Flow X A} {g : A → Flow X B}
      → Follows ns ks f
      → ((a : A) → Follows ks ls (g a))
      → Follows ns ls (f >>= g)
  unfolding ◌>>=◌
  bind-Follows {ns} {ks} {ls} {f} {g} hf hg = record {
    ended = λ host p w.
        continue-Ended ns ks ls g host p (f host p w).1 (f host p w).0 (f host p w).2 hg
          (hf.ended host p w);
  }

  pub then-Follows :
      {A B : Type 0} {ns ks ls : List String} {f : Flow X A} {g : Flow X B}
      → Follows ns ks f
      → Follows ks ls g
      → Follows ns ls (f >> g)
  unfolding ◌>>◌
  then-Follows hf hg = bind-Follows hf (λ _. hg)

  pub stage-Follows :
      {A : Type 0} {n : String} {ns : List String} (note : A → String) (m : M A)
      → Follows {X = X} (n ∷ ns) ns (stage n note m)
  unfolding stage
  stage-Follows note m =
      bind-Follows (within-Follows m) (λ a. then-Follows (pass-Follows (note a)) (return-Follows a))

  pub deferred-Follows :
      {A : Type 0} {ns ks : List String} (c : Call) {f : Flow X A}
      → Follows ns ks f
      → Follows ns ks (deferred c f)
  unfolding deferred
  deferred-Follows c h = record { ended = λ host p w. h.ended host p w }

  pub optional-Follows :
      (b : Bool) {n : String} {ns : List String} {f : Flow X (Unit {0})}
      → Follows (n ∷ ns) ns f
      → Follows (if b then n ∷ ns else ns) ns (optional b f)
  unfolding optional
  optional-Follows true h = h
  optional-Follows false h = return-Follows tt

  pub if-Follows :
      {A : Type 0} (b : Bool) {ns ms ks : List String} {f g : Flow X A}
      → Follows ns ks f
      → Follows ms ks g
      → Follows (if b then ns else ms) ks (if b then f else g)
  if-Follows true h h' = h
  if-Follows false h h' = h'

  recovered-Ended :
      {A : Type 0} (ns ks : List String) (f : X → X) (r : M (Unit {0})) (host : Host)
      (p p' : Progress X) (o : Option A) (w : Trace)
      → Ended ns ks p o p'
      → Ended ns ks p (recovered f r host o p' w).0 (recovered f r host o p' w).1
  recovered-Ended ns ks f r host p p' (some a) w h = h
  recovered-Ended ns ks f r host p p' none w h = h

  pub or_else-Follows :
      {A : Type 0} {ns ks : List String} {m : Flow X A} (f : X → X) (r : M (Unit {0}))
      → Follows ns ks m
      → Follows ns ks (or_else m f r)
  unfolding or_else
  or_else-Follows {ns} {ks} {m} f r h = record {
    ended = λ host p w.
        recovered-Ended ns ks f r host p (m host p w).1 (m host p w).0 (m host p w).2
          (h.ended host p w);
  }
