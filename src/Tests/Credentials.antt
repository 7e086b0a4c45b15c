-- ===== src/Tests/Credentials.antt =====
-- The rotation of credentials on a concrete machine.
use vmkit_agent.Base.{[], ◌∷◌, ◌≡◌, refl, split_at, trim_space}
use vmkit_agent.Host.{read_opened, Host, ok}
use vmkit_agent.Tests.Machines.{reply}
use vmkit_agent.RotateCreds.EnvFile.{
  RotateConfig, Env, updated, read_env, split_pair, render, write_ordered, write_rest,
}

abbrev new_secret : RotateConfig
new_secret = record {
  instance_id = "acme";
  credential_type = "jwt";
  postgres_password = "unused";
  jwt_secret = "new";
  publishable_key = "";
  secret_key = "";
  base_dir = "";
}

abbrev before : Env
before = ("EXTRA", "a=b") ∷ ("JWT_SECRET", "old") ∷ []

abbrev after : Env
after = ("EXTRA", "a=b") ∷ ("JWT_SECRET", "new") ∷ []

abbrev unsorted : Env → Env
unsorted env = env

file_read : read_env (split_at b'\n' "# old\nEXTRA=a=b\n\nJWT_SECRET=old\nnonsense\n") [] ≡ before
unfolding read_env split_at split_pair trim_space
file_read = refl

file_written :
    render unsorted after ≡ "# Supabase instance environment variables\nJWT_SECRET=new\nEXTRA=a=b\n"
unfolding render write_ordered write_rest
file_written = refl

secret_set : updated new_secret before ≡ ok after
unfolding updated
secret_set = refl

-- A machine on which every call succeeds, with this environment file
abbrev with_file : Host
with_file (read_opened path) w = record reply {
  output = "# old\nEXTRA=a=b\n\nJWT_SECRET=old\nnonsense\n";
}
with_file c w = reply
