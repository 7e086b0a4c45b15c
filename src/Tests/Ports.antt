-- ===== src/Tests/Ports.antt =====
-- `OpenPort` on a machine with a firewall of its own.
use vmkit_agent.Base.{
  trim_space, contains, ◌<>◌, ℕ, String, Bool, true, false, List, [], ◌∷◌, ◌≡◌, refl, if◌then◌else◌,
  pos, arith, itoa, eq_iff, sym, ap, ◌∙◌, ap, ◌∙◌, ◌==ₛ◌, ◌==◌, ◌+◌, Bool-cases, inl, inr, show_int,
}
use vmkit_agent.Host.{Call, Host, Trace, Outcome, ok, succeeded}
use vmkit_agent.Host.Log.{runs}
use vmkit_agent.Tests.Machines.{reply, failing}
use vmkit_agent.OpenPort.{
  OpenPortConfig, OpenPortResult, status, delete, add, open_port, reconcile, list_rules_for_port,
  carry_out, delete_each, add_each, reread, distinct_sources, ensure_ufw_installed, concluded,
}
use vmkit_agent.OpenPort.Reconciled.{IsFirewall, rules_at, reconcile_exact}
use vmkit_agent.Ufw.Rules.{ExistingRule, is_blanket, format_add_rule}
use vmkit_agent.Ufw.Parse.{
  parse_ufw_rules_for_port, parse_ufw_rules_for_port-keep, parse_all_ufw_allow_rules, keep, targets,
}
use vmkit_agent.Ufw.Sort.{IsDescending, sort_desc, sort_strings, AllDistinct, num_member, count}
use vmkit_agent.Ufw.Delete.{renumber}
use vmkit_agent.Ufw.Diff.{diff_allowlist, diff_loop, desired_set, or_blanket, desired_keys}
use vmkit_agent.Ufw.Diff.Exact.{survivors, diff_allowlist_exact, numbers, sources}
use vmkit_agent.Ufw.Diff.Desired.{desires}
use vmkit_agent.OpenPort.Plan.{diff_allowlist-IsDescending}
use vmkit_agent.OpenPort.Laws.{too_large, open_port_refused, open_port_exact}

data Phase : Type 0 where
  full : Phase
  thinned : Phase
  complete : Phase

abbrev listing : Phase → String
listing full =
    "Status: active\n[ 1] 22/tcp ALLOW IN Anywhere\n[ 2] 15432/tcp ALLOW IN 203.0.113.4\n[ 3] 15432/tcp ALLOW IN 203.0.113.0/24\n"
listing thinned =
    "Status: active\n[ 1] 22/tcp ALLOW IN Anywhere\n[ 2] 15432/tcp ALLOW IN 203.0.113.0/24\n"
listing complete =
    "Status: active\n[ 1] 22/tcp ALLOW IN Anywhere\n[ 2] 15432/tcp ALLOW IN 203.0.113.0/24\n[ 3] 15432/tcp ALLOW IN 10.0.0.9\n"

abbrev removal : Call
removal = delete 2

abbrev addition : Call
addition = add (pos 15432) "tcp" "10.0.0.9/32"

-- The command is carried out in this phase, and the phase is another one then.
abbrev moves : Phase → Call → Bool
moves full c = runs ("ufw" ∷ "--force" ∷ "delete" ∷ "2" ∷ []) c
moves thinned c =
    runs
      ("ufw" ∷ "allow" ∷ "from" ∷ "10.0.0.9/32" ∷ "to" ∷ "any" ∷ "port" ∷ "15432" ∷ "proto" ∷ "tcp"
        ∷ [])
      c
moves complete c = false

abbrev next : Phase → Phase
next full = thinned
next thinned = complete
next complete = complete

abbrev phase : Trace → Phase
phase [] = full
phase (c ∷ w) = let p = phase w in if moves p c then next p else p

abbrev firewall : Host
firewall c w =
    if runs ("which" ∷ "ufw" ∷ []) c
    then reply
    else if runs ("ufw" ∷ "status" ∷ "numbered" ∷ []) c
    then record reply { output = listing (phase w) }
    else if moves (phase w) c
    then reply
    else failing "exit status 1"

abbrev rule : ℕ → String → ExistingRule
rule n source = record {
  rule_number = n;
  port = 15432;
  protocol = "tcp";
  source = source;
  ipv6 = false;
}

abbrev rules : Phase → List ExistingRule
rules full = rule 2 "203.0.113.4/32" ∷ rule 3 "203.0.113.0/24" ∷ []
rules thinned = rule 2 "203.0.113.0/24" ∷ []
rules complete = rule 2 "203.0.113.0/24" ∷ rule 3 "10.0.0.9/32" ∷ []

shown : (p : Phase) → parse_ufw_rules_for_port (listing p) (pos 15432) "tcp" ≡ rules p
unfolding parse_ufw_rules_for_port
shown full = refl
shown thinned = refl
shown complete = refl

listed_in : (p : Phase) → rules (if moves p status then next p else p) ≡ rules p
listed_in full = refl
listed_in thinned = refl
listed_in complete = refl

numbered_in : (p : Phase) → AllDistinct (numbers (rules p))
numbered_in full = (refl, (refl, tt))
numbered_in thinned = (refl, tt)
numbered_in complete = (refl, (refl, tt))

deleted_in :
    (p : Phase) (n : ℕ)
    → num_member n (numbers (rules p)) ≡ true
    → moves p (delete n) ≡ true
    → rules (next p) ≡ renumber n (rules p)
unfolding itoa
deleted_in full n m s = elim (Bool-cases (2 == n)) [
  | inl two ↦ let two : 2 ≡ n = ground arith in rw (sym two) refl
  | inr other ↦
      let three : 3 ≡ n = ground arith in
      let refused : moves full (delete 3) ≡ true = rw (sym three) at s in ground arith
]
deleted_in thinned n m s = ground arith
deleted_in complete n m s = ground arith

-- The form of an address without a mask
abbrev as_listed : String → String
as_listed c = if contains c "/" then c else c <> "/32"

added_in :
    (p : Phase) (c d : String)
    → is_blanket c ≡ false
    → moves p (add (pos 15432) "tcp" c) ≡ true
    → count d (sources (rules (next p)))
      ≡ (if as_listed c ==ₛ d then 1 else 0) + count d (sources (rules p))
unfolding format_add_rule contains
added_in full c d b s = ground arith
added_in thinned c d b s =
    let s = rw b at s in
    let this : "10.0.0.9/32" ≡ c = ground (arith, eq_iff "10.0.0.9/32" c) in
    rw (← this) (omega arith)
added_in complete c d b s = ground arith

moved :
    (w : Trace) (c : Call)
    → moves (phase w) c ≡ true
    → rules_at firewall (pos 15432) "tcp" (c ∷ w) ≡ rules (next (phase w))
moved w c h = shown (phase (c ∷ w)) ∙ ap (λ b. rules (if b then next (phase w) else phase w)) h

added_moves :
    (p : Phase) (w : Trace) (c : String)
    → phase w ≡ p
    → is_blanket c ≡ false
    → succeeded (firewall (add (pos 15432) "tcp" c) w) ≡ true
    → moves (phase w) (add (pos 15432) "tcp" c) ≡ true
unfolding format_add_rule
added_moves p w c e b s = ground arith

deleted_moves :
    (w : Trace) (n : ℕ)
    → succeeded (firewall (delete n) w) ≡ true
    → moves (phase w) (delete n) ≡ true
deleted_moves w n s = ground arith

firewall_works : IsFirewall firewall (pos 15432) "tcp" as_listed
firewall_works = record {
  listed = λ w. shown (phase (status ∷ w)) ∙ listed_in (phase w) ∙ sym (shown (phase w));
  numbered = λ w. rw (shown (phase w)) (numbered_in (phase w));
  deleted = λ w n m s.
      moved w (delete n) (deleted_moves w n s)
      ∙ deleted_in (phase w) n (rw (shown (phase w)) at m) (deleted_moves w n s)
      ∙ ap (renumber n) (sym (shown (phase w)));
  added = λ w c d b absent s.
      let moves_on = added_moves (phase w) w c refl b s in
      ap (λ rs. count d (sources rs)) (moved w (add (pos 15432) "tcp" c) moves_on)
      ∙ added_in (phase w) c d b moves_on
      ∙ ap (λ rs. (if as_listed c ==ₛ d then 1 else 0) + count d (sources rs))
          (sym (shown (phase w)));
}

abbrev wanted : List String
wanted = "203.0.113.0/24" ∷ "10.0.0.9/32" ∷ []

wanted_plain : (d : String) → desires wanted d ≡ true → as_listed d ≡ d
unfolding trim_space contains
wanted_plain d h = elim (Bool-cases ("203.0.113.0/24" ==ₛ d)) [
  | inl first ↦
      let this : "203.0.113.0/24" ≡ d = ground (arith, eq_iff "203.0.113.0/24" d) in
      rw (← this) refl
  | inr other ↦
      let this : "10.0.0.9/32" ≡ d = ground (arith, eq_iff "10.0.0.9/32" d) in rw (← this) refl
]

unfolds : Outcome (List String)
unfolding reconcile list_rules_for_port carry_out delete_each diff_allowlist sort_desc diff_loop
    parse_ufw_rules_for_port desired_set or_blanket desired_keys itoa add_each sort_strings
    format_add_rule show_int reread distinct_sources trim_space
unfolds = (reconcile (pos 15432) "tcp" wanted firewall []).0

reconciled : (reconcile (pos 15432) "tcp" wanted firewall []).0 ≡ ok wanted
unfolding unfolds
reconciled = refl

reconcile_exact_example :
    (count "203.0.113.4/32" (
        sources
          (rules_at firewall (pos 15432) "tcp" (reconcile (pos 15432) "tcp" wanted firewall []).1))
      ≡ 0)
    × (count "203.0.113.4/32" wanted ≡ 0)
unfolding trim_space
reconcile_exact_example =
    reconcile_exact firewall (pos 15432) "tcp" as_listed firewall_works wanted wanted_plain []
      "203.0.113.4/32" refl refl reconciled

abbrev config : OpenPortConfig
config = record { port = pos 15432; protocol = ""; source_cidrs = wanted }

abbrev opened : OpenPortResult
opened = record {
  success = true;
  port = pos 15432;
  protocol = "tcp";
  allowed_cidrs = wanted;
  error_message = "";
}

opens : (open_port config firewall []).0 ≡ ok opened
unfolding open_port ensure_ufw_installed concluded unfolds
opens = refl

open_port_exact_example :
    (count "10.0.0.9/32"
        (sources (rules_at firewall (pos 15432) "tcp" (open_port config firewall []).1))
      ≡ 1)
    × (count "10.0.0.9/32" wanted ≡ 1)
unfolding trim_space
open_port_exact_example =
    open_port_exact config firewall as_listed firewall_works wanted_plain [] "10.0.0.9/32" refl refl
      opens refl

open_port_refused_example : open_port (record config { port = pos 65536 }) firewall [] ≡ (
  ok (record {
    success = false;
    port = pos 65536;
    protocol = "tcp";
    allowed_cidrs = [];
    error_message = "invalid port number: 65536";
  }),
  [],
)
unfolding show_int
open_port_refused_example =
    open_port_refused (record config { port = pos 65536 }) firewall [] (too_large (omega arith))

diff_allowlist-IsDescending_example : IsDescending (diff_allowlist (rules full) wanted).0
diff_allowlist-IsDescending_example =
    diff_allowlist-IsDescending (rules full) wanted (refl, (refl, tt))

diff_allowlist_exact_example :
    (let plan = diff_allowlist (rules full) wanted in
      count "10.0.0.9/32" (sources (survivors plan.0 (rules full))) + count "10.0.0.9/32" plan.1)
    ≡ 1
unfolding trim_space
diff_allowlist_exact_example =
    diff_allowlist_exact (rules full) wanted "10.0.0.9/32" (refl, (refl, tt))

parse_ufw_rules_for_port-keep_example :
    parse_ufw_rules_for_port (listing full) (pos 22) "tcp"
    ≡ keep (targets (pos 22) "tcp") (parse_all_ufw_allow_rules (listing full))
parse_ufw_rules_for_port-keep_example = parse_ufw_rules_for_port-keep (listing full) (pos 22) "tcp"
