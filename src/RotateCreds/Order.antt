-- ===== src/RotateCreds/Order.antt =====
-- When a rotation restarts containers.
use vmkit_agent.Base.{
  String, Bool, true, false, ◌&&◌, ◌||◌, split_at, List, [], ◌∷◌, ◌==ₛ◌, join_path,
}
use vmkit_agent.Host.{Call, exec, read_opened, write_file, Host, Trace, ok, err, succeeded}
use vmkit_agent.Host.Log.{guarded}
use vmkit_agent.RotateCreds.EnvFile.{RotateConfig, Env, read_env, updated, render}
use vmkit_agent.RotateCreds.{dir_of}

abbrev begins : List String → List String → Bool
begins [] argv = true
begins (x ∷ xs) [] = false
begins (x ∷ xs) (y ∷ ys) = (x ==ₛ y) && begins xs ys

abbrev pub restarts_container : Call → Bool
restarts_container (exec dir limit argv) = begins ("sudo" ∷ "docker-compose" ∷ "restart" ∷ []) argv
restarts_container _ = false

-- The text is what `order` gives for the variables of what was read, with the new credentials in
-- them.
abbrev pub updates_text : (Env → Env) → RotateConfig → String → String → Bool
updates_text order cfg old text = elim (updated cfg (read_env (split_at b'\n' old) [])) [
  | ok env ↦ text ==ₛ render order env
  | err e ↦ false
]

-- A write of the file that succeeded, right after the file was read, put the new credentials into
-- what had been read.
abbrev pub rotated : (Env → Env) → RotateConfig → Host → String → Trace → Bool
rotated order cfg host path (write_file p text mode ∷ read_opened p' ∷ w) =
    (p ==ₛ path
      && p' ==ₛ path
      && succeeded (host (write_file p text mode) (read_opened p' ∷ w))
      && updates_text order cfg (host (read_opened p') w).output text)
    || rotated order cfg host path (read_opened p' ∷ w)
rotated order cfg host path [] = false
rotated order cfg host path (c ∷ w) = rotated order cfg host path w

module _ (order : Env → Env) (cfg : RotateConfig) (host : Host) (path : String) where
  abbrev written_first : Trace → Bool
  written_first = guarded restarts_container (rotated order cfg host path)

  abbrev is_written : Trace → Bool
  is_written = rotated order cfg host path

module _ (order : Env → Env) (host : Host) (cfg : RotateConfig) where
  abbrev pub env_path : String
  env_path = join_path (dir_of order cfg) ".env"
