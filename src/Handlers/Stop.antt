-- ===== src/Handlers/Stop.antt =====
-- containers_stop.go: the containers of an environment are stopped and removed.
use vmkit_agent.Base.{
  String, ◌<>◌, Bool, true, Option, none, some, List, [], ◌∷◌, ◌≡◌, refl, arith, eq_iff, Bool-cases,
  inl, inr, is_empty, trim_space, split_at, if◌then◌else◌,
}
use vmkit_agent.Host.{
  Call, Reply, Host, Trace, ok, M, ◌>>=◌, ◌>>◌, return, ensure, call, require, succeeded,
  succeeded-none, after-keeps, cmd, message,
}
use vmkit_agent.Host.Log.{runs, argv_eq, done}
use vmkit_agent.Handlers.{is_env_id}

pub record ContainersStopResult : Type 0 where
  pub stopped : List String
  pub errors : List String

abbrev pub names_of : List String → List String
names_of [] = []
names_of (line ∷ lines) =
    let rest = names_of lines in if is_empty (trim_space line) then rest else trim_space line ∷ rest

abbrev pub docker_argv : String → String → List String
docker_argv verb name = "sudo" ∷ "docker" ∷ verb ∷ name ∷ []

abbrev pub failure : String → String → Reply → String
failure verb name r = verb <> " " <> name <> ": " <> trim_space r.output

-- The error of one container, if there is one
unfoldable pub stop_one : String → M (Option String)
stop_one name = do
  stop ← call (cmd 0 (docker_argv "stop" name))
  let removed : M (Option String) = do
    r ← call (cmd 0 (docker_argv "rm" name))
    return (if succeeded r then none else some (failure "rm" name r))
  if succeeded stop then removed else return (some (failure "stop" name stop))

abbrev pub noted : String → Option String → ContainersStopResult → ContainersStopResult
noted name none r = record r { stopped = name ∷ r.stopped }
noted name (some e) r = record r { errors = e ∷ r.errors }

unfoldable pub stop_each : List String → M ContainersStopResult
stop_each [] = return (record { stopped = []; errors = [] })
stop_each (name ∷ names) = do e ← stop_one name; rest ← stop_each names; return (noted name e rest)

abbrev pub list_call : String → Call
list_call id = cmd 0 (
    "sudo"
    ∷ "docker"
    ∷ "ps"
    ∷ "-a"
    ∷ "--filter"
    ∷ ("label=vmkit.environment_id=" <> id)
    ∷ "--format"
    ∷ "{{.Names}}"
    ∷ [])

-- `%q`
module _ (quoted : String → String) where
  unfoldable pub containers_stop : String → M ContainersStopResult
  containers_stop id = do
    ensure (is_env_id id) ("invalid environment_id: " <> quoted id)
    r ← require (list_call id) (message "docker ps failed: ")
    stop_each (names_of (split_at b'\n' (trim_space r.output)))

-- Each of these containers, in their order, was stopped and then removed, which succeeded both by
-- these calls, or there is one error for it.
pub data Settles (host : Host) (w : Trace) : List String → List String → List String → Type 0 where
  all : Settles host w [] [] []
  gone :
      {name : String} {names stopped errors : List String}
      → done host (runs (docker_argv "stop" name)) w ≡ true
      → done host (runs (docker_argv "rm" name)) w ≡ true
      → Settles host w names stopped errors
      → Settles host w (name ∷ names) (name ∷ stopped) errors
  left :
      {name error : String} {names stopped errors : List String}
      → Settles host w names stopped errors
      → Settles host w (name ∷ names) stopped (error ∷ errors)

argv_eq_refl : (argv : List String) → argv_eq argv argv ≡ true
argv_eq_refl [] = refl
argv_eq_refl (x ∷ xs) = ground (arith, eq_iff x x, argv_eq_refl xs)

module _ (host : Host) where
  abbrev stopped_ok : String → Trace → Bool
  stopped_ok name = done host (runs (docker_argv "stop" name))

  abbrev removed_ok : String → Trace → Bool
  removed_ok name = done host (runs (docker_argv "rm" name))

  runs_itself :
      (argv : List String) (w : Trace)
      → succeeded (host (cmd 0 argv) w) ≡ true
      → done host (runs argv) (cmd 0 argv ∷ w) ≡ true
  runs_itself argv w h = ground (arith, argv_eq_refl argv)

  -- It gives no error only where both commands succeeded.
  stop_one-done :
      (name : String) (w : Trace)
      → let (o, w') = stop_one name host w in
        (e : Option String) × (o ≡ ok e)
        × (e ≡ none → (stopped_ok name w' ≡ true) × (removed_ok name w' ≡ true))
  unfolding stop_one
  stop_one-done name w =
      let stop = cmd 0 (docker_argv "stop" name) in
      let rm = cmd 0 (docker_argv "rm" name) in
      elim (Bool-cases (succeeded (host stop w))) [
        | inl fine ↦ elim (Bool-cases (succeeded (host rm (stop ∷ w)))) [
          | inl removed ↦
              rw (fine, removed)
                (
                  none,
                  refl,
                  λ e. (
                    ground (arith, runs_itself (docker_argv "stop" name) w fine),
                    ground (arith, eq_iff name name),
                  ),
                )
          | inr still ↦ rw (fine, still) (some _, refl, λ e. cc)
        ]
        | inr still ↦ rw still (some _, refl, λ e. cc)
      ]

  stop_one-keeps :
      (p : Call → Bool) (name : String) (w : Trace)
      → done host p w ≡ true
      → done host p (stop_one name host w).1 ≡ true
  unfolding stop_one
  stop_one-keeps p name w h = ground arith

  stop_each-keeps :
      (p : Call → Bool) (names : List String) (w : Trace)
      → done host p w ≡ true
      → done host p (stop_each names host w).1 ≡ true
  unfolding stop_each
  stop_each-keeps p [] w h = h
  stop_each-keeps p (name ∷ names) w h =
      let (o, w') = stop_one name host w in
      let (o', w'') = stop_each names host w' in
      let later = stop_each-keeps p names w' (stop_one-keeps p name w h) in
      let noted_with : Option String → M ContainersStopResult =
        λ e. (do rest ← stop_each names; return (noted name e rest)) in
      after-keeps (λ w. done host p w ≡ true) host noted_with o w' (stop_one-keeps p name w h)
        (λ e.
          after-keeps (λ w. done host p w ≡ true) host (λ rest. return (noted name e rest)) o' w''
            later (λ rest. later))

  noted-Settles :
      (name : String) (e : Option String) (names : List String) (r : ContainersStopResult)
      (w : Trace)
      → (e ≡ none → (stopped_ok name w ≡ true) × (removed_ok name w ≡ true))
      → Settles host w names r.stopped r.errors
      → Settles host w (name ∷ names) (noted name e r).stopped (noted name e r).errors
  noted-Settles name none names r w h rest = gone (h refl).0 (h refl).1 rest
  noted-Settles name (some e) names r w h rest = left rest

  stop_each-Settles :
      (names : List String) (w : Trace)
      → let (o, w') = stop_each names host w in
        (r : ContainersStopResult) × (o ≡ ok r) × Settles host w' names r.stopped r.errors
  unfolding stop_each
  stop_each-Settles [] w = (_, refl, all)
  stop_each-Settles (name ∷ names) w =
      let (e, fine, settled) = stop_one-done name w in
      let w' = (stop_one name host w).1 in
      let (r, fine', rest) = stop_each-Settles names w' in
      rw (fine, fine')
        (
          noted name e r,
          refl,
          noted-Settles name e names r (stop_each names host w').1
              (λ h. (
                stop_each-keeps _ names w' (settled h).0,
                stop_each-keeps _ names w' (settled h).1,
              ))
              rest,
        )

  -- The containers that `docker ps` lists for the environment
  abbrev pub listed : String → Trace → List String
  listed id w = names_of (split_at b'\n' (trim_space (host (list_call id) w).output))

  -- Where the identifier is one and `docker ps` succeeds: `ContainersStop` returns a result in which
  -- each container that was listed is settled. It is among the stopped ones, in the order of the
  -- list, and then it was stopped and removed, or there is one error for it.
  pub containers_stop-Settles :
      (quoted : String → String) (id : String) (w : Trace)
      → is_env_id id ≡ true
      → succeeded (host (list_call id) w) ≡ true
      → let (o, w') = containers_stop quoted id host w in
        (r : ContainersStopResult) × (o ≡ ok r) × Settles host w' (listed id w) r.stopped r.errors
  unfolding containers_stop
  containers_stop-Settles quoted id w valid fine =
      let none_given = succeeded-none (host (list_call id) w) fine in
      rw (valid, none_given) (stop_each-Settles (listed id w) (list_call id ∷ w))
