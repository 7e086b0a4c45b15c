-- ===== src/RotateCreds/EnvFile.antt =====
-- The environment file: read into a map, changed, and written again. The map is a list of pairs
-- with each name once.
use Prim.Native.Char.{code}
use vmkit_agent.Base.{
  String, ◌<>◌, Bool, false, ◌||◌, Option, none, some, List, [], ◌∷◌, ◌==ₛ◌, ◌==◌, leb, is_empty,
  starts_with, trim_space, byte_count, if◌then◌else◌,
}
use vmkit_agent.Host.{Outcome, ok, err}

pub record RotateConfig : Type 0 where
  pub instance_id : String
  pub credential_type : String
  pub postgres_password : String
  pub jwt_secret : String
  pub publishable_key : String
  pub secret_key : String
  pub base_dir : String

abbrev pub Env : Type 0
Env = List (String × String)

abbrev pub lookup : String → Env → Option String
lookup key [] = none
lookup key ((k, v) ∷ env) = let rest = lookup key env in if k ==ₛ key then some v else rest

abbrev pub set : String → String → Env → Env
set key value [] = (key, value) ∷ []
set key value ((k, v) ∷ env) =
    let rest = set key value env in if k ==ₛ key then (key, value) ∷ env else (k, v) ∷ rest

-- `strings.SplitN(line, "=", 2)` in two parts, or none if it gives one
unfoldable pub split_pair : String → Option (String × String)
split_pair String.[] = none
split_pair (String.◌∷◌ c s) =
    let rest = split_pair s in
    if code c == 61
    then some ("", s)
    else elim rest [ some (k, v) ↦ some (String.◌∷◌ c k, v) | none ↦ none ]

set_pair : Option (String × String) → Env → Env
set_pair none env = env
set_pair (some (k, v)) env = set k v env

unfoldable pub read_env : List String → Env → Env
unfolding set_pair
read_env [] env = env
read_env (text ∷ texts) env =
    let line = trim_space text in
    read_env texts
      (if is_empty line || starts_with line "#" then env else set_pair (split_pair line) env)

unfoldable pub has_long : List String → Bool
has_long [] = false
has_long (line ∷ lines) = leb 65536 (byte_count line) || has_long lines

abbrev pub set_given : String → String → Env → Env
set_given key value env = if is_empty value then env else set key value env

-- The switch on the type of the credentials
unfoldable pub updated : RotateConfig → Env → Outcome Env
updated cfg env =
    if cfg.credential_type ==ₛ "postgres"
    then ok (set_given "POSTGRES_PASSWORD" cfg.postgres_password env)
    else if cfg.credential_type ==ₛ "jwt"
    then ok (set_given "JWT_SECRET" cfg.jwt_secret env)
    else if cfg.credential_type ==ₛ "api_keys"
    then ok (
        set_given "SECRET_KEY" cfg.secret_key (set_given "PUBLISHABLE_KEY" cfg.publishable_key env))
    else if cfg.credential_type ==ₛ "all"
    then ok (
        set_given "SECRET_KEY" cfg.secret_key (
          set_given "PUBLISHABLE_KEY" cfg.publishable_key (
            set_given "JWT_SECRET" cfg.jwt_secret
              (set_given "POSTGRES_PASSWORD" cfg.postgres_password env))))
    else err ("unknown credential type: " <> cfg.credential_type)

abbrev ordered_keys : List String
ordered_keys =
    "INSTANCE_ID" ∷ "SUBDOMAIN" ∷ "DOMAIN" ∷ "POSTGRES_PASSWORD" ∷ "JWT_SECRET" ∷ "PUBLISHABLE_KEY"
    ∷ "SECRET_KEY" ∷ "PGSODIUM_KEY" ∷ "KONG_PORT" ∷ "POSTGRES_PORT" ∷ "STUDIO_PORT" ∷ []

abbrev assignment : String → String → String
assignment key value = key <> "=" <> value <> "\n"

unfoldable pub write_ordered : List String → Env → String
write_ordered [] env = ""
write_ordered (key ∷ keys) env =
    let rest = write_ordered keys env in
    elim (lookup key env) [ some value ↦ assignment key value <> rest | none ↦ rest ]

-- Every name in the map that is in the ordered list has been written.
abbrev was_written : String → List String → Bool
was_written key [] = false
was_written key (k ∷ ks) = k ==ₛ key || was_written key ks

unfoldable pub write_rest : Env → String
write_rest [] = ""
write_rest ((key, value) ∷ env) =
    let rest = write_rest env in
    if was_written key ordered_keys then rest else assignment key value <> rest

unfoldable pub render : (Env → Env) → Env → String
render order env =
    "# Supabase instance environment variables\n"
    <> write_ordered ordered_keys env
    <> write_rest (order env)
