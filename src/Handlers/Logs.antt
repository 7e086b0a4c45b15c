-- ===== src/Handlers/Logs.antt =====
-- logs_fetch.go: the end of a container's log. The result's lines are a list, which is empty where
-- the source has none.
pub mod Fetched
use vmkit_agent.Base.{
  ℕ, zero, suc, ◌≤◌, ◌<◌, String, ◌<>◌, Bool, true, false, not, ◌&&◌, ◌||◌, ◌++◌, Option, none,
  some, List, [], ◌∷◌, ◌≡◌, ◌⊎◌, inl, inr, refl, arith, ◌==ₛ◌, ltb, Bool-cases, ℤ, pos, negsuc,
  is_empty, trim_space, split_at, itoa, if◌then◌else◌,
}
use vmkit_agent.Host.{
  Call, Reply, Host, Trace, Outcome, ok, M, ◌>>=◌, ◌>>◌, return, call, succeeded, error_text, cmd,
}
use vmkit_agent.Handlers.{is_env_id, is_container_name}

pub record LogsFetchParams : Type 0 where
  pub container : String
  pub tail : ℤ
  pub environment_id : String

pub record LogsFetchResult : Type 0 where
  pub lines : List String
  pub container : String
  pub tail : ℕ
  pub error : String

abbrev default_logs_tail : ℕ
default_logs_tail = 200

abbrev max_logs_tail : ℕ
max_logs_tail = 1000

-- The running containers that these filters select
abbrev pub filter_args : List String → List String
filter_args [] = []
filter_args (f ∷ fs) = "--filter" ∷ f ∷ filter_args fs

abbrev pub ps_call : List String → Call
ps_call filters = cmd 0 (
    "sudo" ∷ "docker" ∷ "ps" ∷ filter_args filters
    ++ filter_args ("status=running" ∷ [])
    ++ "--format" ∷ "{{.Names}}" ∷ [])

abbrev pub lists : String → List String → Bool
lists name [] = false
lists name (line ∷ lines) = (trim_space line ==ₛ name) || lists name lines

abbrev pub is_served : String → Bool
is_served name = not (is_empty name) && not (name ==ₛ "kamal-proxy")

-- The first container that is not the proxy
abbrev pub first_of : List String → Option String
first_of [] = none
first_of (line ∷ lines) =
    let rest = first_of lines in
    if is_served (trim_space line) then some (trim_space line) else rest

abbrev pub lines_of : Reply → List String
lines_of r = if succeeded r then split_at b'\n' (trim_space r.output) else []

abbrev pub or_then : Option String → M String → M String
or_then (some name) m = return name
or_then none m = m

abbrev pub role_of : String → String
role_of requested = if requested ==ₛ "app" then "web" else requested

-- Only for "app": a container of any role
unfoldable pub by_service : String → M String
by_service requested = do
  let looked : M String = do
    r ← call (ps_call ("label=service" ∷ []))
    or_then (first_of (lines_of r)) (return requested)
  if requested ==ₛ "app" then looked else return requested

unfoldable pub by_role : String → M String
by_role requested = do
  r ← call (ps_call (("label=role=" <> role_of requested) ∷ []))
  or_then (first_of (lines_of r)) (by_service requested)

unfoldable pub by_environment : String → String → M String
by_environment requested env_id = do
  let looked : M String = do
    r ← call (
        ps_call
          (("label=vmkit.environment_id=" <> env_id) ∷ ("label=role=" <> role_of requested) ∷ []))
    or_then (first_of (lines_of r)) (by_role requested)
  if not (is_empty env_id) && is_env_id env_id then looked else by_role requested

unfoldable pub resolve_container : String → String → M String
resolve_container requested env_id = do
  r ← call (ps_call (("name=" <> requested) ∷ []))
  if lists requested (lines_of r) then return requested else by_environment requested env_id

abbrev pub tail_of : ℤ → ℕ
tail_of (pos zero) = default_logs_tail
tail_of (pos (suc n)) = if ltb max_logs_tail (suc n) then max_logs_tail else suc n
tail_of (negsuc n) = default_logs_tail

-- `strings.TrimRight` of line breaks
unfoldable pub trim_breaks : String → String
trim_breaks String.[] = ""
trim_breaks (String.◌∷◌ c s) =
    let rest = trim_breaks s in
    if is_empty rest && (String.◌∷◌ c "" ==ₛ "\n") then "" else String.◌∷◌ c rest

abbrev pub or_text : String → String → String
or_text text fallback = if is_empty text then fallback else text

abbrev pub log_lines : String → List String
log_lines output = if is_empty (trim_breaks output) then [] else split_at b'\n' (trim_breaks output)

abbrev pub logs_call : ℕ → String → Call
logs_call tail container =
    cmd 0 ("sudo" ∷ "docker" ∷ "logs" ∷ "--tail" ∷ itoa tail ∷ container ∷ [])

abbrev pub logs_result : ℕ → String → Reply → LogsFetchResult
logs_result tail container r = record {
  lines = if succeeded r then log_lines r.output else [];
  container = container;
  tail = tail;
  error = if succeeded r then "" else or_text (trim_space r.output) (error_text r);
}

abbrev pub name_of : LogsFetchParams → String
name_of p = if is_empty p.container then "app" else p.container

-- `%q`
module _ (quoted : String → String) where
  unfoldable pub logs_fetch : LogsFetchParams → M LogsFetchResult
  logs_fetch p = do
    let refused : M LogsFetchResult = return (record {
      lines = [];
      container = "";
      tail = 0;
      error = "invalid container name: " <> quoted (name_of p);
    })
    let fetched : M LogsFetchResult = do
      container ← resolve_container (name_of p) p.environment_id
      r ← call (logs_call (tail_of p.tail) container)
      return (logs_result (tail_of p.tail) container r)
    if is_container_name (name_of p) then fetched else refused
