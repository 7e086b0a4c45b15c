-- ===== src/ResetVm/Firewall.antt =====
-- The firewall after `resetUFW`.
use vmkit_agent.Base.{ℕ, Bool, true, not, ◌||◌, List, [], ◌∷◌, ◌≡◌, refl, ℤ, ap, arith, ◌∙◌}
use vmkit_agent.Host.{Host, Trace, ok, return, succeeded, succeeded-none, bind-eq_ok}
use vmkit_agent.Ufw.Rules.{ExistingRule}
use vmkit_agent.Ufw.Parse.{keep}
use vmkit_agent.Ufw.Delete.{unnumbered}
use vmkit_agent.Ufw.Line.Shown.{Shown, IsShown}
use vmkit_agent.Ufw.Left.{shows, port_fits, rule_of, left-shows}
use vmkit_agent.Ufw.Purge.{
  IsNumberedFirewall, all_rules, sudo_status, delete_rules, delete_rules-keep, numbers_of,
}
use vmkit_agent.ResetVm.Steps.{
  reset_ufw, reset_listed, delete_planned, delete_text, plan_ufw_reset, allows,
}

keep-not-not :
    (p : ExistingRule → Bool) (rs : List ExistingRule) → keep (λ r. not (not (p r))) rs ≡ keep p rs
keep-not-not p [] = refl
keep-not-not p (r ∷ rs) = ground (arith, keep-not-not p rs)

reset_ufw_rules :
    (allowed : List ℤ) (host : Host) (w : Trace) {removed : List ℕ}
    → IsNumberedFirewall host
    → succeeded (host sudo_status w) ≡ true
    → (reset_ufw allowed host w).0 ≡ ok removed
    → unnumbered (all_rules host (reset_ufw allowed host w).1)
      ≡ unnumbered (keep (allows allowed) (all_rules host w))
unfolding reset_ufw reset_listed delete_planned plan_ufw_reset
reset_ufw_rules allowed host w F listed h =
    let p = λ (r : ExistingRule). not (allows allowed r) in
    let after = sudo_status ∷ w in
    let ns = numbers_of p (all_rules host w) in
    let moved : reset_ufw allowed host w ≡ delete_planned ns host after =
      rw (succeeded-none (host sudo_status w) listed) refl in
    let (_, deleted, rest) =
      bind-eq_ok (delete_rules delete_text ns) (λ _. return ns) host after (rw moved at h) in
    let same = F.listed w in
    let done = delete_rules-keep host F delete_text p after (rw same deleted) in
    rw (moved, rest)
      (rw same at done ∙ ap unnumbered (keep-not-not (allows allowed) (all_rules host w)))

allows-unnumbered :
    (allowed : List ℤ) (r : ExistingRule)
    → allows allowed (record r { rule_number = 0 }) ≡ allows allowed r
allows-unnumbered [] r = refl
allows-unnumbered (p ∷ ps) r = rw (allows-unnumbered ps r) refl

-- Where the numbers of the firewall's rules work as documented, and `ufw status` succeeds: when
-- `resetUFW` ends without an error, the rules that the program reads in the listing are those from
-- before that are for the allowed ports, in their order; and each line that the scanner comes to
-- and that shows an ALLOW IN rule with a port number that Go can read and tcp or udp, however wide
-- its gaps, is for an allowed port. Nothing is said of rules that name no protocol or an
-- application, or that are not ALLOW IN.
pub reset_ufw-keep :
    (allowed : List ℤ) (host : Host) (w : Trace) {removed : List ℕ} (t : Shown)
    → IsNumberedFirewall host
    → succeeded (host sudo_status w) ≡ true
    → (reset_ufw allowed host w).0 ≡ ok removed
    → IsShown t
    → port_fits t ≡ true
    → let w' = (reset_ufw allowed host w).1 in
      (unnumbered (all_rules host w') ≡ unnumbered (keep (allows allowed) (all_rules host w)))
      × ((not (shows t (host sudo_status w').output) || allows allowed (rule_of t)) ≡ true)
reset_ufw-keep allowed host w t F listed h shown small =
    let left = reset_ufw_rules allowed host w F listed h in
    (
      left,
      left-shows (allows allowed) (all_rules host w) _ t (allows-unnumbered allowed) left shown
          small,
    )
