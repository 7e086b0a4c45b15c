-- ===== src/OpenPort.antt =====
-- internal/openport/openport.go: one port of the firewall and its allowed sources.
pub mod Laws
pub mod Plan
pub mod Reconciled
use vmkit_agent.Base.{
  ℕ, String, ◌<>◌, Bool, true, false, Option, none, some, List, [], ◌∷◌, ◌++◌, ◌==ₛ◌, ◌==◌,
  is_empty, trim_space, itoa, ℤ, show_int, out_of_range, if◌then◌else◌,
}
use vmkit_agent.Host.{
  Call, Reply, Outcome, ok, err, M, ◌>>=◌, ◌>>◌, return, fail, call, require, attempt, cmd,
  error_text,
}
use vmkit_agent.Ufw.Rules.{ExistingRule, format_add_rule}
use vmkit_agent.Ufw.Parse.{parse_ufw_rules_for_port}
use vmkit_agent.Ufw.Diff.{member, diff_allowlist}

pub record OpenPortConfig : Type 0 where
  pub port : ℤ
  pub protocol : String
  pub source_cidrs : List String

pub record OpenPortResult : Type 0 where
  pub success : Bool
  pub port : ℤ
  pub protocol : String
  pub allowed_cidrs : List String
  pub error_message : String

pub record UpdateAllowlistResult : Type 0 where
  pub success : Bool
  pub port : ℤ
  pub protocol : String
  pub added_cidrs : List String
  pub removed_cidrs : List String
  pub allowed_cidrs : List String
  pub error_message : String

abbrev pub normalize_protocol : String → String
normalize_protocol p = if is_empty p then "tcp" else p

abbrev pub run : List String → Call
run argv = cmd 0 argv

unfoldable pub ensure_ufw_installed : M (Unit {0})
ensure_ufw_installed = do
  require (run ("which" ∷ "ufw" ∷ [])) (λ r. "UFW is not installed")
  return tt

abbrev pub status : Call
status = run ("ufw" ∷ "status" ∷ "numbered" ∷ [])

abbrev pub with_output : String → Reply → String
with_output prefix r = prefix <> error_text r <> " (" <> trim_space r.output <> ")"

unfoldable pub list_rules_for_port : ℤ → String → M (List ExistingRule)
list_rules_for_port port protocol = do
  r ← require status (with_output "failed to read UFW status: ")
  return (parse_ufw_rules_for_port r.output port protocol)

abbrev pub delete : ℕ → Call
delete n = run ("ufw" ∷ "--force" ∷ "delete" ∷ itoa n ∷ [])

unfoldable pub delete_each : List ℕ → M (Unit {0})
delete_each [] = return tt
delete_each (n ∷ ns) = do
  require (delete n) (with_output ("failed to delete UFW rule " <> itoa n <> ": "))
  delete_each ns

abbrev pub add : ℤ → String → String → Call
add port protocol cidr = run ("ufw" ∷ format_add_rule port protocol cidr)

unfoldable pub add_each : ℤ → String → List String → M (Unit {0})
add_each port protocol [] = return tt
add_each port protocol (cidr ∷ cidrs) = do
  require (add port protocol cidr) (
      with_output
        ("failed to allow " <> cidr <> " on " <> show_int port <> "/" <> protocol <> ": "))
  add_each port protocol cidrs

-- The sources, each at its first place.
unfoldable pub distinct_sources : List String → List ExistingRule → List String
distinct_sources seen [] = []
distinct_sources seen (r ∷ rs) =
    let more = distinct_sources (r.source ∷ seen) rs in
    let rest = distinct_sources seen rs in if member r.source seen then rest else r.source ∷ more

-- The part of `reconcile` behind the plan: it deletes, adds, and reads the rules again.
unfoldable pub reread : ℤ → String → M (List String)
reread port protocol = do
  current ← list_rules_for_port port protocol
  return (distinct_sources [] current)

unfoldable pub carry_out : ℤ → String → List ℕ × List String → M (List String)
carry_out port protocol plan = do
  delete_each plan.0
  add_each port protocol plan.1
  reread port protocol

unfoldable pub reconcile : ℤ → String → List String → M (List String)
reconcile port protocol desired = do
  existing ← list_rules_for_port port protocol
  carry_out port protocol (diff_allowlist existing desired)

-- An error becomes the result's message; what was put into the result before stays there.
unfoldable pub concluded : OpenPortResult → Outcome (List String) → OpenPortResult
concluded result (ok allowed) = record result { allowed_cidrs = allowed; success = true }
concluded result (err e) = record result { error_message = e }

unfoldable pub open_port : OpenPortConfig → M OpenPortResult
open_port cfg =
    let protocol = normalize_protocol cfg.protocol in
    let result : OpenPortResult = record {
      success = false;
      port = cfg.port;
      protocol = protocol;
      allowed_cidrs = [];
      error_message = "";
    } in
    let refused : M OpenPortResult =
      return (record result { error_message = "invalid port number: " <> show_int cfg.port }) in
    let opened : M OpenPortResult = (do
      r ← attempt (do ensure_ufw_installed; reconcile cfg.port protocol cfg.source_cidrs)
      return (concluded result r)) in
    if out_of_range cfg.port then refused else opened

-- `beforeByNum[n]`: the last rule with the number
rule_source : ℕ → List ExistingRule → Option String
rule_source n [] = none
rule_source n (r ∷ rs) = elim (rule_source n rs) [
  | some s ↦ some s
  | none ↦ if r.rule_number == n then some r.source else none
]

removed : List ExistingRule → List ℕ → List String
removed rules [] = []
removed rules (n ∷ ns) =
    let rest = removed rules ns in elim (rule_source n rules) [ some s ↦ s ∷ rest | none ↦ rest ]

update_concluded : UpdateAllowlistResult → Outcome (List String) → UpdateAllowlistResult
update_concluded result (ok allowed) = record result { allowed_cidrs = allowed; success = true }
update_concluded result (err e) = record result { error_message = e }

update_from :
    OpenPortConfig → UpdateAllowlistResult → Outcome (List ExistingRule) → M UpdateAllowlistResult
update_from cfg result (err e) = return (record result { error_message = e })
update_from cfg result (ok before) = do
  let plan = diff_allowlist before cfg.source_cidrs
  r ← attempt (reconcile cfg.port result.protocol cfg.source_cidrs)
  return (
      update_concluded
        (record result { removed_cidrs = removed before plan.0; added_cidrs = plan.1 }) r)

unfoldable pub update_allowlist : OpenPortConfig → M UpdateAllowlistResult
unfolding rule_source removed update_concluded update_from
update_allowlist cfg =
    let protocol = normalize_protocol cfg.protocol in
    let result : UpdateAllowlistResult = record {
      success = false;
      port = cfg.port;
      protocol = protocol;
      added_cidrs = [];
      removed_cidrs = [];
      allowed_cidrs = [];
      error_message = "";
    } in
    let refused : M UpdateAllowlistResult =
      return (record result { error_message = "invalid port number: " <> show_int cfg.port }) in
    let updated : M UpdateAllowlistResult = (do
      before ← attempt (do ensure_ufw_installed; list_rules_for_port cfg.port protocol)
      update_from cfg result before) in
    if out_of_range cfg.port then refused else updated
