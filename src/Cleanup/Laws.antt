-- ===== src/Cleanup/Laws.antt =====
-- The order of what `Cleanup` does.
use vmkit_agent.Base.{
  String, Bool, true, false, not, ◌&&◌, ◌||◌, List, [], ◌∷◌, ◌++◌, ◌==ₛ◌, ◌≡◌, refl, ℤ, pos, arith,
  Bool-cases, inl, inr, if◌then◌else◌,
}
use vmkit_agent.Host.{Call, Host, Trace, Outcome, ok, err, after, return}
use vmkit_agent.Host.Log.{runs, made, done, guarded, guarded-and}
use vmkit_agent.Cleanup.Plan.{
  CleanupConfig, CleanupStep, get_cleanup_steps, file_steps, fail2ban_steps, ssh_steps, user_step,
}
use vmkit_agent.Cleanup.{
  CleanupResult, cleanup, execute_all, execute_step, record_step, step_result, step_call, passes,
  is_ignorable, removes_path, restored,
}

-- No call was made after one that `p` accepts.
abbrev pub nothing_after : (Call → Bool) → Trace → Bool
nothing_after p [] = true
nothing_after p (c ∷ w) = not (made p w) && nothing_after p w

-- No step comes after one whose call `p` accepts.
abbrev ends_with : (Call → Bool) → List CleanupStep → Bool
ends_with p [] = true
ends_with p (s ∷ []) = true
ends_with p (s ∷ t ∷ ss) = not (p (step_call s)) && ends_with p (t ∷ ss)

-- Each step whose call `p` accepts comes after one whose call `q` accepts, and an error of that one
-- is not ignored.
abbrev is_strict : String → Bool
is_strict name =
    not (removes_path name)
    && not (name ==ₛ "Remove supabyoi user")
    && not (name ==ₛ "Restart fail2ban to apply changes")
    && not (name ==ₛ "Reload Nginx to remove site configurations")

abbrev orders : (Call → Bool) → (Call → Bool) → Bool → List CleanupStep → Bool
orders q p seen [] = true
orders q p seen (s ∷ ss) =
    (not (p (step_call s)) || seen) && orders q p ((q (step_call s) && is_strict s.name) || seen) ss

-- Each step whose call `p` accepts comes after one whose call `q` accepts.
abbrev follows : (Call → Bool) → (Call → Bool) → Bool → List CleanupStep → Bool
follows q p seen [] = true
follows q p seen (s ∷ ss) =
    (not (p (step_call s)) || seen) && follows q p (q (step_call s) || seen) ss

strict-ignorable : (name output : String) → is_strict name ≡ true → is_ignorable name output ≡ false
unfolding is_ignorable
strict-ignorable name output h = ground arith

execute_all-nothing_after :
    (p : Call → Bool) (ss : List CleanupStep) (r : CleanupResult) (host : Host) (w : Trace)
    → ends_with p ss ≡ true
    → made p w ≡ false
    → nothing_after p w ≡ true
    → nothing_after p (execute_all ss r host w).1 ≡ true
unfolding execute_all execute_step step_result record_step
execute_all-nothing_after p [] r host w e m n = n
execute_all-nothing_after p (s ∷ []) r host w e m n =
    elim (Bool-cases (passes s (host (step_call s) w))) [
      | inl passed ↦ rw passed (ground arith)
      | inr stopped ↦ rw stopped (ground arith)
    ]
execute_all-nothing_after p (s ∷ t ∷ ss) r host w e m n =
    elim (Bool-cases (passes s (host (step_call s) w))) [
      | inl passed ↦ rw passed (
          execute_all-nothing_after p (t ∷ ss) _ host (step_call s ∷ w) (ground arith)
            (ground arith) (ground arith))
      | inr stopped ↦ rw stopped (ground arith)
    ]

execute_all-guarded :
    (q p : Call → Bool) (seen : Bool) (ss : List CleanupStep) (r : CleanupResult) (host : Host)
    (w : Trace)
    → orders q p seen ss ≡ true
    → (seen ≡ true → done host q w ≡ true)
    → guarded p (done host q) w ≡ true
    → guarded p (done host q) (execute_all ss r host w).1 ≡ true
unfolding execute_all execute_step step_result record_step
execute_all-guarded q p seen [] r host w o d g = g
execute_all-guarded q p seen (s ∷ ss) r host w o d g =
    elim (Bool-cases (passes s (host (step_call s) w))) [
      | inl passed ↦ rw passed (
          execute_all-guarded q p ((q (step_call s) && is_strict s.name) || seen) ss _ host
            (step_call s ∷ w) (ground arith)
            (λ now. ground (arith, d, strict-ignorable s.name (host (step_call s) w).output))
            (ground (arith, d)))
      | inr stopped ↦ rw stopped (ground (arith, d))
    ]

execute_all-followed :
    (q p : Call → Bool) (seen : Bool) (ss : List CleanupStep) (r : CleanupResult) (host : Host)
    (w : Trace)
    → follows q p seen ss ≡ true
    → (seen ≡ true → made q w ≡ true)
    → guarded p (made q) w ≡ true
    → guarded p (made q) (execute_all ss r host w).1 ≡ true
unfolding execute_all execute_step step_result record_step
execute_all-followed q p seen [] r host w o d g = g
execute_all-followed q p seen (s ∷ ss) r host w o d g =
    elim (Bool-cases (passes s (host (step_call s) w))) [
      | inl passed ↦ rw passed (
          execute_all-followed q p (q (step_call s) || seen) ss _ host (step_call s ∷ w)
            (ground arith) (λ now. ground (arith, d)) (ground (arith, d)))
      | inr stopped ↦ rw stopped (ground (arith, d))
    ]

abbrev pub deletes_user : Call → Bool
deletes_user = runs ("sudo" ∷ "userdel" ∷ "-r" ∷ "supabyoi" ∷ [])

abbrev pub restarts_sshd : Call → Bool
restarts_sshd = runs ("sudo" ∷ "systemctl" ∷ "restart" ∷ "sshd" ∷ [])

abbrev pub allows_root : Call → Bool
allows_root = runs (
    "sudo" ∷ "sed" ∷ "-i" ∷ "s/^PermitRootLogin no/PermitRootLogin yes/" ∷ "/etc/ssh/sshd_config"
    ∷ [])

abbrev pub removes_config : Call → Bool
removes_config = runs ("sudo" ∷ "rm" ∷ "-f" ∷ "/etc/ssh/sshd_config.d/supabyoi.conf" ∷ [])

abbrev in_order : List CleanupStep → Bool
in_order ss =
    orders allows_root restarts_sshd false ss && follows removes_config restarts_sshd false ss

-- What stands before a restart of SSH
abbrev pub prepared : Host → Trace → Bool
prepared host w = done host allows_root w && made removes_config w

user_last : (cfg : CleanupConfig) → ends_with deletes_user (get_cleanup_steps cfg) ≡ true
unfolding get_cleanup_steps file_steps fail2ban_steps ssh_steps
user_last cfg = ground arith

root_in :
    (full revert password firewall : Bool) (level user : String) (port : ℤ)
    → let cfg : CleanupConfig = record {
      level = level;
      pre_hardening_ssh_port = port;
      pre_hardening_ssh_user = user;
      restore_password_auth = password;
      disable_firewall = firewall;
    } in
      in_order (
        file_steps
        ++ ((if full then fail2ban_steps else [])
            ++ ((if revert then ssh_steps cfg else []) ++ (if full then user_step ∷ [] else []))))
      ≡ true
unfolding file_steps fail2ban_steps ssh_steps removes_path
root_in true true true true level user port = refl
root_in true true true false level user port = refl
root_in true true false true level user port = refl
root_in true true false false level user port = refl
root_in true false password firewall level user port = refl
root_in false true true true level user port = refl
root_in false true true false level user port = refl
root_in false true false true level user port = refl
root_in false true false false level user port = refl
root_in false false password firewall level user port = refl

root_first : (cfg : CleanupConfig) → in_order (get_cleanup_steps cfg) ≡ true
unfolding get_cleanup_steps
root_first cfg =
    root_in (cfg.level ==ₛ "full" || cfg.level ==ₛ "revert") (cfg.level ==ₛ "revert")
      cfg.restore_password_auth cfg.disable_firewall cfg.level cfg.pre_hardening_ssh_user
      cfg.pre_hardening_ssh_port

module _ (cfg : CleanupConfig) (host : Host) where
  abbrev start : CleanupResult
  start = record {
    success = true;
    level = cfg.level;
    steps = [];
    error_message = "";
    failed_step = "";
    restored_ssh_port = pos 0;
    restored_ssh_user = "";
  }

  cleanup-calls :
      (o : Outcome CleanupResult) (w : Trace)
      → (after host (λ r. return (restored cfg r)) o w).1 ≡ w
  cleanup-calls (ok r) w = refl
  cleanup-calls (err e) w = refl

  -- Whatever the host answers, `Cleanup` makes no call after the one that deletes the agent's user.
  pub cleanup-nothing_after : nothing_after deletes_user (cleanup cfg host []).1 ≡ true
  unfolding cleanup
  cleanup-nothing_after =
      let done = execute_all (get_cleanup_steps cfg) start host [] in
      rw (cleanup-calls done.0 done.1) (
        execute_all-nothing_after deletes_user (get_cleanup_steps cfg) start host [] (user_last cfg)
          refl refl)

  -- Whatever the host answers, `Cleanup` restarts SSH only after the `sed` command that turns
  -- `PermitRootLogin no` into `PermitRootLogin yes` in /etc/ssh/sshd_config has succeeded, and
  -- after it has asked for the removal of hardening's own file in sshd_config.d, whether or not
  -- that succeeded.
  pub cleanup-guarded : guarded restarts_sshd (prepared host) (cleanup cfg host []).1 ≡ true
  unfolding cleanup
  cleanup-guarded =
      let steps = get_cleanup_steps cfg in
      let run = execute_all steps start host [] in
      let ready = root_first cfg in
      rw (cleanup-calls run.0 run.1) (
        guarded-and restarts_sshd (done host allows_root) (made removes_config) run.1
          (execute_all-guarded allows_root restarts_sshd false steps start host [] (ground arith)
            (λ impossible. ground arith) refl)
          (execute_all-followed removes_config restarts_sshd false steps start host []
            (ground arith) (λ impossible. ground arith) refl))
