-- ===== src/Harden/Refusal.antt =====
-- A machine or a configuration that fails the first checks is left as it was.
use vmkit_agent.Base.{
  ◌==ₛ◌, ◌≤◌, String, Bool, true, false, not, [], ◌∷◌, ◌≡◌, arith, starts_with, ℤ, pos, negsuc, inl,
  inr, out_of_range,
}
use vmkit_agent.Host.{Call, geteuid, stat, mkdir_all, Host, ok, err, Outcome-cases, succeeded}
use vmkit_agent.Host.Log.{made}
use vmkit_agent.Harden.Config.{HardenConfig, fail_step, empty_result, backup_dir}
use vmkit_agent.Harden.System.{preflight_checks}
use vmkit_agent.Harden.Run.{conclude, step, harden}

-- Every call but those of the checks: the user, what a file is, and the backup directory.
abbrev pub changes_machine : Call → Bool
changes_machine geteuid = false
changes_machine (stat path) = false
changes_machine (mkdir_all path mode) = not (path ==ₛ backup_dir)
changes_machine _ = true

abbrev pub IsPort : ℤ → Type 0
IsPort (pos n) = (1 ≤ n) × (n ≤ 65535)
IsPort (negsuc n) = ⊥

-- What must hold before a machine is hardened.
pub record IsHardenable (cfg : HardenConfig) (host : Host) : Type 0 where
  pub as_root : (host geteuid []).number ≡ 0
  pub key : starts_with cfg.ssh_public_key "ssh-" ≡ true
  pub port : IsPort cfg.ssh_port
  pub debian : succeeded (host (stat "/etc/debian_version") (geteuid ∷ [])) ≡ true

in_range-IsPort : (p : ℤ) → out_of_range p ≡ false → IsPort p
in_range-IsPort (pos n) h = ground arith
in_range-IsPort (negsuc n) h = ground arith

module _ (cfg : HardenConfig) (host : Host) where
  preflight-IsHardenable :
      (cfg' : HardenConfig) → (preflight_checks cfg host []).0 ≡ ok cfg' → IsHardenable cfg host
  unfolding preflight_checks
  preflight-IsHardenable cfg' h = record {
    as_root = ground arith;
    key = ground arith;
    port = in_range-IsPort cfg.ssh_port (ground arith);
    debian = ground arith;
  }

  preflight_harmless : made changes_machine (preflight_checks cfg host []).1 ≡ false
  unfolding preflight_checks
  preflight_harmless = ground arith

  harden_refused :
      (e : String)
      → (preflight_checks cfg host []).0 ≡ err e
      → harden cfg host [] ≡ (
        ok (fail_step "Pre-flight Safety Checks" e empty_result),
        (preflight_checks cfg host []).1,
      )
  unfolding harden step conclude
  harden_refused e h = rw h

  -- If `Harden` makes any call other than those of its checks, then it runs as root, the key of
  -- the configuration starts with "ssh-", the port is from 1 to 65535 and the system is Debian's.
  pub harden-IsHardenable :
      made changes_machine (harden cfg host []).1 ≡ true → IsHardenable cfg host
  harden-IsHardenable h = elim (Outcome-cases (preflight_checks cfg host []).0) [
    | inl (cfg', passed) ↦ preflight-IsHardenable cfg' passed
    | inr (e, refused) ↦ cc (harden_refused e refused, preflight_harmless)
  ]
