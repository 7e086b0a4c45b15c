-- ===== src/Stage/Safe.antt =====
-- What holds of the calls that a flow has made: before it, when it ends, and when it stops.
use vmkit_agent.Base.{String, Bool, true, false, Option, none, some, ◌∷◌, ◌≡◌, refl, if◌then◌else◌}
use vmkit_agent.Host.{Call, Host, Trace, Outcome, ok, err, M}
use vmkit_agent.Stage.{
  Progress, Flow, continue, ◌>>=◌, ◌>>◌, return, ask, set_extra, pass, within, settled, stage,
  deferred, or_else, recovered, optional,
}

abbrev pub Lands : {A : Type 0} → Option A → Type 0 → Type 0 → Type 0
Lands (some a) Q R = Q
Lands none Q R = R

abbrev pub Turns : {A : Type 0} → Outcome A → Type 0 → Type 0 → Type 0
Turns (ok a) Q R = Q
Turns (err e) Q R = R

-- Where `P` holds of the calls made before the flow, `Q` holds of those made when it has ended,
-- and `R` of those made when it has stopped.
pub record Safe {X A : Type 0} (host : Host) (P Q R : Trace → Type 0) (f : Flow X A) : Type 0 where
  pub lands :
      (p : Progress X) (w : Trace)
      → P w
      → Lands (f host p w).0 (Q (f host p w).2) (R (f host p w).2)

-- The same of a program
abbrev pub Sound :
    {A : Type 0} → Host → (Trace → Type 0) → (Trace → Type 0) → (Trace → Type 0) → M A → Type 0
Sound host P Q R m = (w : Trace) → P w → Turns (m host w).0 (Q (m host w).1) (R (m host w).1)

settled-Lands :
    {X A : Type 0} (Q R : Trace → Type 0) (name : String) (o : Outcome A) (p : Progress X)
    (w : Trace)
    → Turns o (Q w) (R w)
    → Lands (settled name o p w).0 (Q (settled name o p w).2) (R (settled name o p w).2)
settled-Lands Q R name (ok a) p w h = h
settled-Lands Q R name (err e) p w h = h

continue-Lands :
    {X A B : Type 0} {host : Host} (Q R S : Trace → Type 0) (g : A → Flow X B) (o : Option A)
    (p : Progress X) (w : Trace)
    → ((a : A) → Safe host Q S R (g a))
    → Lands o (Q w) (R w)
    → Lands (continue host g o p w).0 (S (continue host g o p w).2) (R (continue host g o p w).2)
continue-Lands Q R S g none p w hg h = h
continue-Lands Q R S g (some a) p w hg h = (hg a).lands p w h

later-Lands :
    {A : Type 0} (Q R : Trace → Type 0) (c : Call) (o : Option A) (w : Trace)
    → ((w : Trace) → Q w → Q (c ∷ w))
    → ((w : Trace) → R w → R (c ∷ w))
    → Lands o (Q w) (R w)
    → Lands o (Q (c ∷ w)) (R (c ∷ w))
later-Lands Q R c (some a) w hq hr h = hq w h
later-Lands Q R c none w hq hr h = hr w h

recovered-Lands :
    {X A : Type 0} {host : Host} (Q R S : Trace → Type 0) (f : X → X) (r : M (Unit {0}))
    (o : Option A) (p : Progress X) (w : Trace)
    → ((w : Trace) → R w → S (r host w).1)
    → Lands o (Q w) (R w)
    → Lands
        (recovered f r host o p w).0
        (Q (recovered f r host o p w).2)
        (S (recovered f r host o p w).2)
recovered-Lands Q R S f r (some a) p w hr h = h
recovered-Lands Q R S f r none p w hr h = hr w h

both-Lands :
    {A : Type 0} (Q R : Trace → Type 0) (o : Option A) (w : Trace)
    → ((w : Trace) → Q w → R w)
    → Lands o (Q w) (R w)
    → R w
both-Lands Q R (some a) w weak h = weak w h
both-Lands Q R none w weak h = h

same-Turns : {A : Type 0} (o : Outcome A) (Q R : Type 0) → (Q → R) → Q → Turns o Q R
same-Turns (ok a) Q R weak h = h
same-Turns (err e) Q R weak h = weak h

-- What holds of a program's calls whether it fails or not
pub always-Sound :
    {A : Type 0} (host : Host) (P Q R : Trace → Type 0) (m : M A)
    → ((w : Trace) → Q w → R w)
    → ((w : Trace) → P w → Q (m host w).1)
    → Sound host P Q R m
always-Sound host P Q R m weak h w before =
    same-Turns (m host w).0 (Q (m host w).1) (R (m host w).1) (weak (m host w).1) (h w before)

module _ {X : Type 0} {host : Host} {P R : Trace → Type 0} where
  pub return-Safe : {A : Type 0} (a : A) → Safe {X = X} host P P R (return a)
  unfolding return
  return-Safe a = record { lands = λ p w h. h }

  pub pass-Safe : (name note : String) → Safe {X = X} host P P R (pass name note)
  unfolding pass
  pass-Safe name note = record { lands = λ p w h. h }

  pub set_extra-Safe : (f : X → X) → Safe host P P R (set_extra f)
  unfolding set_extra
  set_extra-Safe f = record { lands = λ p w h. h }

module _ {X : Type 0} {host : Host} {P Q R : Trace → Type 0} where
  pub ask-Safe : (c : Call) → ((w : Trace) → P w → Q (c ∷ w)) → Safe {X = X} host P Q R (ask c)
  unfolding ask
  ask-Safe c h = record { lands = λ p w. h w }

  pub within-Safe :
      {A : Type 0} (name : String) (m : M A)
      → Sound host P Q R m
      → Safe {X = X} host P Q R (within name m)
  unfolding within
  within-Safe name m h = record {
    lands = λ p w before. settled-Lands Q R name (m host w).0 p (m host w).1 (h w before);
  }

  pub bind-Safe :
      {S : Trace → Type 0} {A B : Type 0} {f : Flow X A} {g : A → Flow X B}
      → Safe host P Q R f
      → ((a : A) → Safe host Q S R (g a))
      → Safe host P S R (f >>= g)
  unfolding ◌>>=◌
  bind-Safe {S} {f} {g} hf hg = record {
    lands = λ p w before.
        continue-Lands Q R S g (f host p w).0 (f host p w).1 (f host p w).2 hg
          (hf.lands p w before);
  }

  pub then-Safe :
      {S : Trace → Type 0} {A B : Type 0} {f : Flow X A} {g : Flow X B}
      → Safe host P Q R f
      → Safe host Q S R g
      → Safe host P S R (f >> g)
  unfolding ◌>>◌
  then-Safe hf hg = bind-Safe hf (λ _. hg)

  pub deferred-Safe :
      {A : Type 0} (c : Call) {f : Flow X A}
      → ((w : Trace) → Q w → Q (c ∷ w))
      → ((w : Trace) → R w → R (c ∷ w))
      → Safe host P Q R f
      → Safe host P Q R (deferred c f)
  unfolding deferred
  deferred-Safe c {f} hq hr h = record {
    lands =
        λ p w before. later-Lands Q R c (f host p w).0 (f host p w).2 hq hr (h.lands p w before);
  }

  pub optional-Safe :
      (b : Bool) {f : Flow X (Unit {0})}
      → (b ≡ true → Safe host P Q R f)
      → (b ≡ false → (w : Trace) → P w → Q w)
      → Safe host P Q R (optional b f)
  unfolding optional
  optional-Safe true h skip = h refl
  optional-Safe false h skip = record { lands = λ p w before. skip refl w before }

  pub if-Safe :
      {A : Type 0} (b : Bool) {f g : Flow X A}
      → (b ≡ true → Safe host P Q R f)
      → (b ≡ false → Safe host P Q R g)
      → Safe host P Q R (if b then f else g)
  if-Safe true h h' = h refl
  if-Safe false h h' = h' refl

  pub or_else-Safe :
      {S : Trace → Type 0} {A : Type 0} {m : Flow X A} (f : X → X) (r : M (Unit {0}))
      → Safe host P Q R m
      → ((w : Trace) → R w → S (r host w).1)
      → Safe host P Q S (or_else m f r)
  unfolding or_else
  or_else-Safe {S} {m} f r h hr = record {
    lands = λ p w before.
        recovered-Lands Q R S f r (m host p w).0 (m host p w).1 (m host p w).2 hr
          (h.lands p w before);
  }

module _ {X : Type 0} {host : Host} {P Q R : Trace → Type 0} where
  pub stage-Safe :
      {A : Type 0} (name : String) (note : A → String) (m : M A)
      → Sound host P Q R m
      → Safe {X = X} host P Q R (stage name note m)
  unfolding stage
  stage-Safe name note m h =
      bind-Safe (within-Safe name m h) (λ a. then-Safe (pass-Safe name (note a)) (return-Safe a))

  -- Whatever becomes of the flow, what holds at its end and at its stop holds.
  pub Safe-calls :
      {A : Type 0} {f : Flow X A}
      → Safe host P Q R f
      → ((w : Trace) → Q w → R w)
      → (p : Progress X) (w : Trace) → P w
      → R (f host p w).2
  Safe-calls {f} h weak p w before =
      both-Lands Q R (f host p w).0 (f host p w).2 weak (h.lands p w before)
