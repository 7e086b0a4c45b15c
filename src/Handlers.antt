-- ===== src/Handlers.antt =====
-- internal/daemon/handlers: the requests with logic of their own, from where their JSON is read.
pub mod Stop
pub mod Logs
pub mod Adapters
use Prim.Native.Char.{Char, code}
use Prim.Native.String.{len}
use vmkit_agent.Base.{
  ℕ, String, Bool, true, false, not, ◌&&◌, ◌||◌, ◌≡◌, refl, ◌==◌, leb, is_empty, if◌then◌else◌,
}

-- Letters, digits and the hyphen
abbrev pub is_id_char : Char → Bool
is_id_char c =
    (leb 97 (code c) && leb (code c) 122)
    || (leb 65 (code c) && leb (code c) 90)
    || (leb 48 (code c) && leb (code c) 57)
    || code c == 45

abbrev pub all_chars : (Char → Bool) → String → Bool
all_chars p String.[] = true
all_chars p (String.◌∷◌ c s) = p c && all_chars p s

-- `envIDRe`
unfoldable pub is_env_id : String → Bool
is_env_id s = all_chars is_id_char s && not (is_empty s) && leb (len s) 64

-- `containerNameRe`
unfoldable pub is_container_name : String → Bool
is_container_name s =
    all_chars (λ c. is_id_char c || code c == 46 || code c == 95) s && not (is_empty s)

env_id : is_env_id "3f2a-Z9" ≡ true
unfolding is_env_id
env_id = refl

no_env_id : is_env_id "a b" ≡ false
unfolding is_env_id
no_env_id = refl
