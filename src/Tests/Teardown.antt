-- ===== src/Tests/Teardown.antt =====
-- `Destroy`, `Reset` and `Cleanup` on concrete machines.
use vmkit_agent.Base.{
  ℕ, String, Bool, true, false, not, ◌||◌, some, List, [], ◌∷◌, ◌≡◌, refl, sym, ap, ◌∙◌, arith,
  ◌==◌, Bool-cases, inl, inr, itoa, pos, if◌then◌else◌,
}
use vmkit_agent.Host.{Host, Trace, ok, succeeded}
use vmkit_agent.Host.Log.{runs, guarded}
use vmkit_agent.Tests.Machines.{reply, failing, willing}
use vmkit_agent.Ufw.Rules.{ExistingRule}
use vmkit_agent.Ufw.Parse.{
  value, parse_all_ufw_allow_rules, parse_ufw_rules_for_port, keep, targets,
}
use vmkit_agent.Ufw.Sort.{AllDistinct, num_member, sort_desc}
use vmkit_agent.Ufw.Diff.Exact.{numbers}
use vmkit_agent.Ufw.Delete.{renumber, unnumbered}
use vmkit_agent.Ufw.Line.Shown.{Shown, IsShown, line, rule_line, match_line-line}
use vmkit_agent.Ufw.Line.{match_line}
use vmkit_agent.Ufw.Left.{shows, port_fits, rule_of}
use vmkit_agent.Ufw.Purge.{IsNumberedFirewall, all_rules, sudo_status, sudo_delete, delete_rules}
use vmkit_agent.Destroy.{DestroyConfig, destroy}
use vmkit_agent.Destroy.Steps.{close_firewall_port, close_listed}
use vmkit_agent.Destroy.Laws.{Destroys, destroy-Destroys}
use vmkit_agent.Destroy.Firewall.{close_firewall_port-keep}
use vmkit_agent.ResetVm.{ResetVmConfig, reset}
use vmkit_agent.ResetVm.Steps.{reset_ufw, reset_listed, delete_planned, plan_ufw_reset, allows}
use vmkit_agent.ResetVm.Report.{Resets, four_runs, reset-Resets}
use vmkit_agent.ResetVm.Firewall.{reset_ufw-keep}
use vmkit_agent.Cleanup.Plan.{CleanupConfig}
use vmkit_agent.Cleanup.{cleanup}
use vmkit_agent.Cleanup.Laws.{
  nothing_after, deletes_user, restarts_sshd, prepared, cleanup-nothing_after, cleanup-guarded,
}

-- Rule 2 can be deleted, once.
abbrev is_open : Trace → Bool
is_open [] = true
is_open (c ∷ w) =
    let rest = is_open w in
    if runs ("sudo" ∷ "ufw" ∷ "--force" ∷ "delete" ∷ "2" ∷ []) c then false else rest

abbrev listing : Bool → String
listing true =
    "Status: active\n[ 1] 22/tcp ALLOW IN Anywhere\n[ 2] 15432/tcp ALLOW IN 203.0.113.4\n"
listing false = "Status: active\n[ 1] 22/tcp ALLOW IN Anywhere\n"

abbrev machine : Host
machine c w =
    if runs ("sudo" ∷ "ufw" ∷ "status" ∷ "numbered" ∷ []) c
    then record reply { output = listing (is_open w) }
    else if runs ("sudo" ∷ "ufw" ∷ "--force" ∷ "delete" ∷ "2" ∷ []) c
    then reply
    else failing "exit status 1"

abbrev first_rule : ExistingRule
first_rule = record {
  rule_number = 1;
  port = 22;
  protocol = "tcp";
  source = "0.0.0.0/0";
  ipv6 = false;
}

abbrev instance_rule : ExistingRule
instance_rule = record {
  rule_number = 2;
  port = 15432;
  protocol = "tcp";
  source = "203.0.113.4/32";
  ipv6 = false;
}

abbrev rules : Bool → List ExistingRule
rules true = first_rule ∷ instance_rule ∷ []
rules false = first_rule ∷ []

shown : (b : Bool) → parse_all_ufw_allow_rules (listing b) ≡ rules b
unfolding parse_all_ufw_allow_rules
shown true = refl
shown false = refl

numbered_in : (b : Bool) → AllDistinct (numbers (rules b))
numbered_in true = (refl, (refl, tt))
numbered_in false = (refl, tt)

deleted_in :
    (b : Bool) (n : ℕ) (w : Trace)
    → num_member n (numbers (rules b)) ≡ true
    → succeeded (machine (sudo_delete n) w) ≡ true
    → rules (
        if runs ("sudo" ∷ "ufw" ∷ "--force" ∷ "delete" ∷ "2" ∷ []) (sudo_delete n)
        then false
        else b)
      ≡ renumber n (rules b)
unfolding itoa
deleted_in true n w m s = elim (Bool-cases (1 == n)) [
  | inl one ↦ let e : 1 ≡ n = ground arith in let s' = rw (sym e) at s in ground arith
  | inr other ↦ let e : 2 ≡ n = ground arith in rw (sym e) refl
]
deleted_in false n w m s = let e : 1 ≡ n = ground arith in let s' = rw (sym e) at s in ground arith

machine_works : IsNumberedFirewall machine
machine_works = record {
  listed = λ w. refl;
  numbered = λ w. rw (shown (is_open w)) (numbered_in (is_open w));
  deleted = λ w n m s.
      shown (is_open (sudo_delete n ∷ w))
      ∙ deleted_in (is_open w) n w (rw (shown (is_open w)) at m) s
      ∙ ap (renumber n) (sym (shown (is_open w)));
}

closed : (close_firewall_port (pos 15432) machine []).0 ≡ ok tt
unfolding close_firewall_port close_listed parse_ufw_rules_for_port sort_desc delete_rules itoa
closed = refl

-- The line of the instance's rule, as it stands in the listing
abbrev instance_line : Shown
instance_line = record {
  pad = 1;
  number = "2";
  port = "15432";
  udp = false;
  v6 = false;
  gap = 0;
  source_gap = 0;
  source = "203.0.113.4";
}

line_printed : line instance_line ≡ "[ 2] 15432/tcp ALLOW IN 203.0.113.4"
line_printed = refl

instance_line-IsShown : IsShown instance_line
instance_line-IsShown = record { number = refl; port = refl; source = refl }

match_line-line_example :
    match_line "[ 2] 15432/tcp ALLOW IN 203.0.113.4" ≡ some (rule_line instance_line)
match_line-line_example = match_line-line instance_line instance_line-IsShown

small : port_fits instance_line ≡ true
unfolding value
small = refl

close_firewall_port-keep_example :
    let w' = (close_firewall_port (pos 15432) machine []).1 in
    (unnumbered (all_rules machine w')
      ≡ unnumbered (keep (λ r. not (targets (pos 15432) "tcp" r)) (all_rules machine [])))
    × ((not (shows instance_line (machine sudo_status w').output)
          || not (targets (pos 15432) "tcp" (rule_of instance_line)))
        ≡ true)
close_firewall_port-keep_example =
    close_firewall_port-keep (pos 15432) machine [] instance_line machine_works refl refl closed
      instance_line-IsShown small

ufw_reset : (reset_ufw (pos 22 ∷ pos 80 ∷ []) machine []).0 ≡ ok (2 ∷ [])
unfolding reset_ufw reset_listed delete_planned plan_ufw_reset parse_all_ufw_allow_rules sort_desc
    delete_rules itoa
ufw_reset = refl

reset_ufw-keep_example :
    let w' = (reset_ufw (pos 22 ∷ pos 80 ∷ []) machine []).1 in
    (unnumbered (all_rules machine w')
      ≡ unnumbered (keep (allows (pos 22 ∷ pos 80 ∷ [])) (all_rules machine [])))
    × ((not (shows instance_line (machine sudo_status w').output)
          || allows (pos 22 ∷ pos 80 ∷ []) (rule_of instance_line))
        ≡ true)
reset_ufw-keep_example =
    reset_ufw-keep (pos 22 ∷ pos 80 ∷ []) machine [] instance_line machine_works refl ufw_reset
      instance_line-IsShown small

abbrev instance : DestroyConfig
instance = record {
  instance_id = "i-1";
  subdomain = "acme";
  base_dir = "";
  postgres_port = pos 15432;
}

destroy-Destroys_example : Destroys instance (destroy instance willing []).0
destroy-Destroys_example = destroy-Destroys instance willing []

abbrev everything : ResetVmConfig
everything = record { base_dir = ""; allowed_ports = [] }

reset-Resets_example : Resets (four_runs everything willing []) (reset everything willing [])
reset-Resets_example = reset-Resets everything willing []

abbrev reverting : CleanupConfig
reverting = record {
  level = "revert";
  pre_hardening_ssh_port = pos 0;
  pre_hardening_ssh_user = "";
  restore_password_auth = true;
  disable_firewall = true;
}

cleanup-nothing_after_example : nothing_after deletes_user (cleanup reverting willing []).1 ≡ true
cleanup-nothing_after_example = cleanup-nothing_after reverting willing

cleanup-guarded_example :
    guarded restarts_sshd (prepared willing) (cleanup reverting willing []).1 ≡ true
cleanup-guarded_example = cleanup-guarded reverting willing
