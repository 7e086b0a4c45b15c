-- ===== src/RotateCreds/Laws.antt =====
-- What a rotation changes in the environment.
use vmkit_agent.Base.{
  String, Bool, true, split_at, not, ◌&&◌, ◌||◌, Option, none, some, [], ◌∷◌, ◌≡◌, ◌==ₛ◌, is_empty,
  if◌then◌else◌,
}
use vmkit_agent.Host.{
  open_file, read_opened, close_file, write_file, Host, Trace, succeeded, Outcome, ok, err,
}
use vmkit_agent.RotateCreds.EnvFile.{RotateConfig, Env, lookup, read_env, render}

-- The value of a credential in a request: an empty one is none.
abbrev pub value_in : String → String → Bool → Option String
value_in key value wanted = if wanted && not (is_empty value) then some value else none

-- The new value that a request has for a name, by the type of the request.
abbrev pub new_value : RotateConfig → String → Option String
new_value cfg key =
    let type = cfg.credential_type in
    if "POSTGRES_PASSWORD" ==ₛ key
    then value_in key cfg.postgres_password (type ==ₛ "postgres" || type ==ₛ "all")
    else if "JWT_SECRET" ==ₛ key
    then value_in key cfg.jwt_secret (type ==ₛ "jwt" || type ==ₛ "all")
    else if "PUBLISHABLE_KEY" ==ₛ key
    then value_in key cfg.publishable_key (type ==ₛ "api_keys" || type ==ₛ "all")
    else if "SECRET_KEY" ==ₛ key
    then value_in key cfg.secret_key (type ==ₛ "api_keys" || type ==ₛ "all")
    else none

abbrev first_of : Option String → Option String → Option String
first_of (some a) b = some a
first_of none b = b

-- What the new map gives for a name, if there is one
abbrev Gives : RotateConfig → Env → String → Outcome Env → Type 0
Gives cfg env key (ok env') = lookup key env' ≡ first_of (new_value cfg key) (lookup key env)
Gives cfg env key (err e) = Unit {0}

-- What `updateEnvFile` did: it read the file and wrote it anew, with success, as the text of a map
-- in which this name has the new value of the request, or else the value that was read.
pub record Sets (order : Env → Env) (cfg : RotateConfig) (path key : String) (host : Host)
    (w w' : Trace) : Type 0 where
  pub env : Env
  pub calls :
      w'
      ≡ close_file path
        ∷ write_file path (render order env) 0o644
        ∷ read_opened path
        ∷ open_file path
        ∷ w
  pub written :
      succeeded
        (host (write_file path (render order env) 0o644) (read_opened path ∷ open_file path ∷ w))
      ≡ true
  pub value :
      lookup key env
      ≡ first_of (new_value cfg key) (
          lookup key
            (read_env (split_at b'\n' (host (read_opened path) (open_file path ∷ w)).output) []))
