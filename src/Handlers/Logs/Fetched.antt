-- ===== src/Handlers/Logs/Fetched.antt =====
-- What `LogsFetch` answers.
use vmkit_agent.Base.{
  zero, suc, ◌≤◌, String, ◌<>◌, Bool, true, false, not, ◌&&◌, Option, none, some, [], ◌∷◌, ◌≡◌, ◌⊎◌,
  inl, inr, refl, arith, ◌==ₛ◌, Bool-cases, ℤ, pos, negsuc, is_empty, if◌then◌else◌,
}
use vmkit_agent.Host.{Host, Trace, Outcome, ok, M}
use vmkit_agent.Handlers.{is_env_id, is_container_name}
use vmkit_agent.Handlers.Logs.{
  LogsFetchParams, LogsFetchResult, ps_call, lists, lines_of, or_then, by_service, by_role,
  by_environment, resolve_container, tail_of, logs_call, logs_result, name_of, logs_fetch,
}

-- No look at the containers fails.
abbrev Answers : M String → Type 0
Answers m = (host : Host) (w : Trace) → (name : String) × ((m host w).0 ≡ ok name)

or_then-Answers : (o : Option String) (m : M String) → Answers m → Answers (or_then o m)
or_then-Answers (some name) m h host w = (name, refl)
or_then-Answers none m h host w = h host w

if-Answers : (b : Bool) (m k : M String) → Answers m → Answers k → Answers (if b then m else k)
if-Answers true m k h h' = h
if-Answers false m k h h' = h'

by_service-Answers : (requested : String) → Answers (by_service requested)
unfolding by_service
by_service-Answers requested =
    if-Answers (requested ==ₛ "app") _ _
      (λ host w. or_then-Answers _ _ (λ host w. (requested, refl)) host _)
      (λ host w. (requested, refl))

by_role-Answers : (requested : String) → Answers (by_role requested)
unfolding by_role
by_role-Answers requested host w = or_then-Answers _ _ (by_service-Answers requested) host _

by_environment-Answers : (requested env_id : String) → Answers (by_environment requested env_id)
unfolding by_environment
by_environment-Answers requested env_id =
    if-Answers (not (is_empty env_id) && is_env_id env_id) _ _
      (λ host w. or_then-Answers _ _ (by_role-Answers requested) host _) (by_role-Answers requested)

resolve_container-Answers :
    (requested env_id : String) → Answers (resolve_container requested env_id)
unfolding resolve_container
resolve_container-Answers requested env_id host w =
    if-Answers (lists requested (lines_of (host (ps_call (("name=" <> requested) ∷ [])) w))) _ _
      (λ host w. (requested, refl)) (by_environment-Answers requested env_id) host _

tail_of-bounded : (n : ℤ) → (1 ≤ tail_of n) × (tail_of n ≤ 1000)
tail_of-bounded (pos zero) = omega arith
tail_of-bounded (pos (suc n)) = ground arith
tail_of-bounded (negsuc n) = omega arith

-- The answer is a result; either the name was refused before any call, or the latest call asked for
-- the log of the container in the result, and for as many lines as it says: from 1 to 1000.
pub record IsReply (name : String) (before after : Trace) (o : Outcome LogsFetchResult)
    : Type 0 where
  pub reply : LogsFetchResult
  pub answers : o ≡ ok reply
  pub called :
      ((is_container_name name ≡ false) × (after ≡ before))
      ⊎ ((looks : Trace) × (after ≡ logs_call reply.tail reply.container ∷ looks)
          × (1 ≤ reply.tail)
          × (reply.tail ≤ 1000))

-- Whatever the host answers, `LogsFetch` of a request that was read returns a result and no error.
-- It refuses a name with other characters than those of container names before any call. For
-- every other name its latest call asks for the log of the container in the result, and for as
-- many lines as the result says, which are from 1 to 1000.
pub logs_fetch-IsReply :
    (quoted : String → String) (p : LogsFetchParams) (host : Host) (w : Trace)
    → IsReply (name_of p) w (logs_fetch quoted p host w).1 (logs_fetch quoted p host w).0
unfolding logs_fetch
logs_fetch-IsReply quoted p host w =
    let (container, found) = resolve_container-Answers (name_of p) p.environment_id host w in
    let (o, w') = resolve_container (name_of p) p.environment_id host w in
    let tail = tail_of p.tail in
    elim (Bool-cases (is_container_name (name_of p))) [
      | inl valid ↦
          rw (valid, found)
            (record {
              reply = logs_result tail container (host (logs_call tail container) w');
              answers = refl;
              called = inr (w', refl, (tail_of-bounded p.tail).0, (tail_of-bounded p.tail).1);
            })
      | inr bad ↦ rw bad (record { reply = _; answers = refl; called = inl (bad, refl) })
    ]
