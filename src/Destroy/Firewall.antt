-- ===== src/Destroy/Firewall.antt =====
-- The firewall after `closeFirewallPort`.
use vmkit_agent.Base.{true, false, not, ◌||◌, ◌∷◌, ◌≡◌, refl, ℤ, pos, int_eq}
use vmkit_agent.Host.{Host, Trace, Reply, ok, succeeded, succeeded-none}
use vmkit_agent.Ufw.Parse.{parse_all_ufw_allow_rules, keep, targets, parse_ufw_rules_for_port-keep}
use vmkit_agent.Ufw.Delete.{unnumbered}
use vmkit_agent.Ufw.Line.Shown.{Shown, IsShown}
use vmkit_agent.Ufw.Left.{shows, port_fits, rule_of, left-shows}
use vmkit_agent.Ufw.Purge.{
  IsNumberedFirewall, all_rules, sudo_status, delete_rules, delete_rules-keep, numbers_of,
}
use vmkit_agent.Destroy.Steps.{close_firewall_port, close_listed, delete_failed}

close_listed-deletes :
    (port : ℤ) (r : Reply) (host : Host) (w : Trace)
    → succeeded r ≡ true
    → close_listed port r host w
      ≡ delete_rules
          (delete_failed port)
          (numbers_of (targets port "tcp") (parse_all_ufw_allow_rules r.output))
          host
          w
unfolding close_listed
close_listed-deletes port r host w h =
    rw (succeeded-none r h, parse_ufw_rules_for_port-keep r.output port "tcp") refl

close_firewall_port_rules :
    (port : ℤ) (host : Host) (w : Trace)
    → IsNumberedFirewall host
    → int_eq port (pos 0) ≡ false
    → succeeded (host sudo_status w) ≡ true
    → (close_firewall_port port host w).0 ≡ ok tt
    → unnumbered (all_rules host (close_firewall_port port host w).1)
      ≡ unnumbered (keep (λ r. not (targets port "tcp" r)) (all_rules host w))
unfolding close_firewall_port
close_firewall_port_rules port host w F known listed h =
    let p = targets port "tcp" in
    let after = sudo_status ∷ w in
    let moved : close_firewall_port port host w
        ≡ delete_rules (delete_failed port) (numbers_of p (all_rules host w)) host after =
      rw known (close_listed-deletes port (host sudo_status w) host after listed) in
    let same = F.listed w in
    let done = delete_rules-keep host F (delete_failed port) p after (rw same (rw moved at h)) in
    rw moved (rw same at done)

-- Where the numbers of the firewall's rules work as documented, and `ufw status` succeeds: when
-- `closeFirewallPort` ends without an error for a port that is not 0, the rules that the program
-- reads in the listing are those from before that are not for the port and tcp, in their order; and
-- each line that the scanner comes to and that shows an ALLOW IN rule with a port number that Go
-- can read and tcp or udp, however wide its gaps, is not for the port and tcp. Nothing is said of
-- rules that name no protocol or an application.
pub close_firewall_port-keep :
    (port : ℤ) (host : Host) (w : Trace) (t : Shown)
    → IsNumberedFirewall host
    → int_eq port (pos 0) ≡ false
    → succeeded (host sudo_status w) ≡ true
    → (close_firewall_port port host w).0 ≡ ok tt
    → IsShown t
    → port_fits t ≡ true
    → let w' = (close_firewall_port port host w).1 in
      (unnumbered (all_rules host w')
        ≡ unnumbered (keep (λ r. not (targets port "tcp" r)) (all_rules host w)))
      × ((not (shows t (host sudo_status w').output) || not (targets port "tcp" (rule_of t)))
          ≡ true)
close_firewall_port-keep port host w t F known listed h shown small =
    let left = close_firewall_port_rules port host w F known listed h in
    (
      left,
      left-shows (λ r. not (targets port "tcp" r)) (all_rules host w) _ t (λ r. refl) left shown
          small,
    )
