-- ===== src/Instance/Laws.antt =====
-- The state of an instance, by how many of its containers run.
use vmkit_agent.Base.{
  ℕ, suc, ◌≤◌, String, Bool, not, ◌&&◌, ◌||◌, Option, none, some, List, [], ◌∷◌, ◌≡◌, refl, ◌∙◌,
  arith, ◌==◌, ◌==ₛ◌, eq_iff, length, if◌then◌else◌,
}
use vmkit_agent.Compose.Status.{ContainerStatus}
use vmkit_agent.Instance.{Checks, lookup, set, runs, Scan, scan, state_of, empty_scan, seen}

abbrev pub count_running : List ContainerStatus → ℕ
count_running [] = 0
count_running (c ∷ cs) = if runs c then suc (count_running cs) else count_running cs

abbrev pub either : Option Bool → Option Bool → Option Bool
either (some b) o = some b
either none o = o

-- What the last container of this name says
abbrev pub last_check : String → List ContainerStatus → Option Bool
last_check key [] = none
last_check key (c ∷ cs) =
    either (last_check key cs) (if c.name ==ₛ key then some (runs c) else none)

either_if :
    (o : Option Bool) (b v : Bool) (rest : Option Bool)
    → either o (if b then some v else rest) ≡ either (either o (if b then some v else none)) rest
either_if o b v rest = ground arith

either-none : (o : Option Bool) → either o none ≡ o
either-none o = ground arith

count-le : (cs : List ContainerStatus) → count_running cs ≤ length cs
count-le [] = omega arith
count-le (c ∷ cs) = ground (arith, count-le cs)

scan-all :
    (cs : List ContainerStatus) (s : Scan)
    → (scan cs s).all_running ≡ (s.all_running && (count_running cs == length cs))
unfolding scan
scan-all [] s = ground arith
scan-all (c ∷ cs) s = ground (arith, scan-all cs (seen c s), count-le cs)

scan-any :
    (cs : List ContainerStatus) (s : Scan)
    → (scan cs s).any_running ≡ (s.any_running || not (count_running cs == 0))
unfolding scan
scan-any [] s = ground arith
scan-any (c ∷ cs) s = ground (arith, scan-any cs (seen c s))

lookup-set :
    (key k : String) (v : Bool) (m : Checks)
    → lookup key (set k v m) ≡ (if k ==ₛ key then some v else lookup key m)
lookup-set key k v [] = refl
lookup-set key k v ((k', v') ∷ m) =
    ground (arith, eq_iff k' k, eq_iff k' key, eq_iff k key, lookup-set key k v m)

scan-lookup :
    (key : String) (cs : List ContainerStatus) (s : Scan)
    → lookup key (scan cs s).checks ≡ either (last_check key cs) (lookup key s.checks)
unfolding scan
scan-lookup key [] s = refl
scan-lookup key (c ∷ cs) s =
    scan-lookup key cs (seen c s)
    ∙ rw (lookup-set key c.name (runs c) s.checks)
        (either_if (last_check key cs) (c.name ==ₛ key) _ _)

-- The state of an instance is "stopped" where no container runs, "running" where all run, and
-- "degraded" otherwise; the check of a name says whether the last container of that name runs.
pub state_of-scan :
    (cs : List ContainerStatus) (key : String)
    → (state_of cs (scan cs empty_scan) ≡ (
        if count_running cs == 0
        then "stopped"
        else if count_running cs == length cs
        then "running"
        else "degraded"))
      × (lookup key (scan cs empty_scan).checks ≡ last_check key cs)
unfolding state_of
state_of-scan [] key = (refl, scan-lookup key [] empty_scan)
state_of-scan (c ∷ cs) key =
    let all = scan-all (c ∷ cs) empty_scan in
    let any = scan-any (c ∷ cs) empty_scan in
    (
      ground (arith, all, any),
      scan-lookup key (c ∷ cs) empty_scan ∙ either-none (last_check key (c ∷ cs)),
    )
