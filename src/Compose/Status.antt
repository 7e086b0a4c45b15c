-- ===== src/Compose/Status.antt =====
-- The containers of an instance. A line of JSON is read by a parameter, `unmarshal`; `strings.ToLower`
-- is on ASCII, which is all that Docker's states have.
use Prim.Native.Char.{Char, code}
use Prim.Native.String.{char_at}
use vmkit_agent.Base.{
  ◌-◌, String, Bool, true, false, not, ◌&&◌, ◌||◌, Option, none, some, List, [], ◌∷◌, ◌≡◌, refl,
  ◌==ₛ◌, leb, contains, is_empty, trim_space, split_at, if◌then◌else◌,
}
use vmkit_agent.Host.{M, ◌>>=◌, return, fail, call, succeeded}
use vmkit_agent.Compose.{compose_call, with_errors}

abbrev lower_char : Char → Char
lower_char c =
    if leb 65 (code c) && leb (code c) 90
    then char_at "abcdefghijklmnopqrstuvwxyz" (code c - 65)
    else c

unfoldable pub to_lower : String → String
to_lower String.[] = ""
to_lower (String.◌∷◌ c s) = String.◌∷◌ (lower_char c) (to_lower s)

lowered : to_lower "Running 2Z" ≡ "running 2z"
unfolding to_lower
lowered = refl

-- One line of `docker compose ps --format json`
pub record ContainerInfo : Type 0 where
  pub name : String
  pub state : String
  pub health : String
  pub service : String

-- The field `Uptime`, which nothing sets, is left out.
pub record ContainerStatus : Type 0 where
  pub name : String
  pub state : String
  pub health : String

unfoldable pub status_of : ContainerInfo → ContainerStatus
status_of info = record {
  name = info.service;
  state = to_lower info.state;
  health = to_lower info.health;
}

abbrev pub and_then : Option ContainerInfo → List ContainerStatus → List ContainerStatus
and_then none rest = rest
and_then (some info) rest = status_of info ∷ rest

unfoldable pub all_running : List ContainerStatus → Bool
all_running [] = true
all_running (s ∷ ss) = (s.state ==ₛ "running") && all_running ss

abbrev is_nil : List ContainerStatus → Bool
is_nil [] = true
is_nil (s ∷ ss) = false

-- JSON
module _ (unmarshal : String → Option ContainerInfo) where
  -- A line that is empty or is not JSON is passed over.
  unfoldable pub statuses : List String → List ContainerStatus
  statuses [] = []
  statuses (line ∷ lines) =
      let rest = statuses lines in if is_empty line then rest else and_then (unmarshal line) rest

  unfoldable pub get_container_status : String → M (List ContainerStatus)
  unfolding statuses
  get_container_status dir = do
    r ← call (compose_call dir ("ps" ∷ "--format" ∷ "json" ∷ []))
    if not (succeeded r)
        then (if contains r.errors "no configuration file" || contains r.errors "no such file"
            then return []
            else fail (with_errors "failed to get container status: " r))
        else if is_empty r.output
        then return []
        else return (statuses (split_at b'\n' (trim_space r.output)))

  unfoldable pub is_running : String → M Bool
  unfolding get_container_status all_running
  is_running dir = do ss ← get_container_status dir; return (not (is_nil ss) && all_running ss)
