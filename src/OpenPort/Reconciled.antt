-- ===== src/OpenPort/Reconciled.antt =====
-- What `reconcile` brings about on a machine whose `ufw` works as it is documented.
use vmkit_agent.Base.{
  ℕ, ◌+◌, ◌≤◌, String, true, false, List, [], ◌∷◌, ◌≡◌, refl, arith, ◌==ₛ◌, ◌==◌, if◌then◌else◌,
  eq_iff, All, ℤ,
}
use vmkit_agent.Host.{Host, Trace, ok, return, ◌>>◌, succeeded, bind-eq_ok}
use vmkit_agent.Ufw.Rules.{ExistingRule, is_blanket}
use vmkit_agent.Ufw.Parse.{parse_ufw_rules_for_port}
use vmkit_agent.Ufw.Sort.{num_member, count, AllDistinct, IsDescending, cons}
use vmkit_agent.Ufw.Diff.{member, diff_allowlist}
use vmkit_agent.Ufw.Diff.Exact.{sources, numbers, survivors, diff_allowlist_exact}
use vmkit_agent.Ufw.Diff.Desired.{desires}
use vmkit_agent.Ufw.Delete.{
  renumber, renumber_all, sources-renumber_all, Numbered, Numbered-renumber, Numbered-head,
}
use vmkit_agent.OpenPort.Plan.{
  diff_allowlist-IsDescending, plan-Numbered, plan_not_blanket, plan_desired, plan_once,
}
use vmkit_agent.OpenPort.{
  status, delete, delete_each, add, add_each, list_rules_for_port, distinct_sources, reread,
  carry_out, reconcile,
}

-- The rules for the port that `ufw status numbered` shows after these calls.
abbrev pub rules_at : Host → ℤ → String → Trace → List ExistingRule
rules_at host port protocol w = parse_ufw_rules_for_port (host status w).output port protocol

-- What `ufw` documents: the listing changes nothing and numbers the rules apart; a deletion that
-- succeeds takes away the rule with the number and moves the later ones up; when a source is added
-- successfully, the form in which `ufw` lists it has one rule more, if it had none. That form is
-- another text for an address without a mask, or for a network with bits set beyond its mask.
pub record IsFirewall (host : Host) (port : ℤ) (protocol : String) (as_listed : String → String)
    : Type 0 where
  pub listed :
      (w : Trace) → rules_at host port protocol (status ∷ w) ≡ rules_at host port protocol w
  pub numbered : (w : Trace) → AllDistinct (numbers (rules_at host port protocol w))
  pub deleted :
      (w : Trace) (n : ℕ)
      → num_member n (numbers (rules_at host port protocol w)) ≡ true
      → succeeded (host (delete n) w) ≡ true
      → rules_at host port protocol (delete n ∷ w) ≡ renumber n (rules_at host port protocol w)
  pub added :
      (w : Trace) (c d : String)
      → is_blanket c ≡ false
      → count (as_listed c) (sources (rules_at host port protocol w)) ≡ 0
      → succeeded (host (add port protocol c) w) ≡ true
      → count d (sources (rules_at host port protocol (add port protocol c ∷ w)))
        ≡ (if as_listed c ==ₛ d then 1 else 0) + count d (sources (rules_at host port protocol w))

count-distinct_sources :
    (c : String) (seen : List String) (rs : List ExistingRule)
    → count c (distinct_sources seen rs)
      ≡ (if member c seen then 0 else if count c (sources rs) == 0 then 0 else 1)
unfolding distinct_sources
count-distinct_sources c seen [] = ground arith
count-distinct_sources c seen (r ∷ rs) = ground (
  arith,
  eq_iff r.source c,
  count-distinct_sources c seen rs,
  count-distinct_sources c (r.source ∷ seen) rs,
)

-- The source is not everybody, and `ufw` lists it as it is written.
abbrev IsPlain : (String → String) → String → Type 0
IsPlain as_listed c = (is_blanket c ≡ false) × (as_listed c ≡ c)

plan-IsPlain :
    (as_listed : String → String) (rules : List ExistingRule) (desired : List String)
    → AllDistinct (numbers rules)
    → desires desired "0.0.0.0/0" ≡ false
    → desires desired "::/0" ≡ false
    → ((d : String) → desires desired d ≡ true → as_listed d ≡ d)
    → All (IsPlain as_listed) (diff_allowlist rules desired).1
plan-IsPlain as_listed rules desired d v4 v6 plain =
    both _ (plan_not_blanket rules desired d v4 v6) (plan_desired rules desired d)
  where
    both :
        (cs : List String)
        → All (λ c. is_blanket c ≡ false) cs
        → All (λ c. desires desired c ≡ true) cs
        → All (IsPlain as_listed) cs
    both [] b m = tt
    both (c ∷ cs) (b, bs) (m, ms) = ((b, plain c m), both cs bs ms)

-- No source is added that has a rule, and none is added twice.
abbrev Fresh : List String → List ExistingRule → Type 0
Fresh cidrs rs = (d : String) → count d cidrs + count d (sources rs) ≤ 1

module _ (host : Host) (port : ℤ) (protocol : String) (as_listed : String → String)
    (F : IsFirewall host port protocol as_listed) where
  delete_each-renumber_all :
      (ns : List ℕ) (w : Trace)
      → IsDescending ns
      → Numbered ns (rules_at host port protocol w)
      → (delete_each ns host w).0 ≡ ok tt
      → rules_at host port protocol (delete_each ns host w).1
        ≡ renumber_all ns (rules_at host port protocol w)
  unfolding delete_each
  delete_each-renumber_all [] w d h e = refl
  delete_each-renumber_all (n ∷ ns) w (cons below d) h e =
      let rules = rules_at host port protocol w in
      let fine : succeeded (host (delete n) w) ≡ true = ground arith in
      let gone = F.deleted w n (Numbered-head n ns rules h) fine in
      let rest =
        delete_each-renumber_all ns (delete n ∷ w) d
          (rw gone (Numbered-renumber n ns rules below h)) in
      ground (arith, gone, rest (ground arith))

  count-add_each :
      (cidrs : List String) (w : Trace) (d : String)
      → All (IsPlain as_listed) cidrs
      → Fresh cidrs (rules_at host port protocol w)
      → (add_each port protocol cidrs host w).0 ≡ ok tt
      → count d (sources (rules_at host port protocol (add_each port protocol cidrs host w).1))
        ≡ count d cidrs + count d (sources (rules_at host port protocol w))
  unfolding add_each
  count-add_each [] w d b fresh e = omega arith
  count-add_each (c ∷ cidrs) w d b fresh e =
      let fine : succeeded (host (add port protocol c) w) ≡ true = ground arith in
      let absent : count c (sources (rules_at host port protocol w)) ≡ 0 =
        ground (arith, fresh c, eq_iff c c) in
      let absent = rw (← b.0.1) at absent in
      let one_more = λ (x : String). rw b.0.1 at (F.added w c x b.0.0 absent fine) in
      let rest =
        count-add_each cidrs (add port protocol c ∷ w) d b.1
          (λ x. ground (arith, one_more x, fresh x)) (ground arith) in
      ground (arith, one_more d, rest)

  list_rules-eq_ok :
      (w : Trace) {rules : List ExistingRule}
      → (list_rules_for_port port protocol host w).0 ≡ ok rules
      → (rules ≡ rules_at host port protocol w)
        × ((list_rules_for_port port protocol host w).1 ≡ status ∷ w)
  unfolding list_rules_for_port
  list_rules-eq_ok w h = ground arith

  reread-exact :
      (w : Trace) {allowed : List String} (c : String)
      → (reread port protocol host w).0 ≡ ok allowed
      → (count c allowed
          ≡ (if count c (sources (rules_at host port protocol w)) == 0 then 0 else 1))
        × (rules_at host port protocol (reread port protocol host w).1
            ≡ rules_at host port protocol w)
  unfolding reread
  reread-exact w c h =
      let (rules, e, rest) =
        bind-eq_ok (list_rules_for_port port protocol)
          (λ current. return (distinct_sources [] current)) host w h in
      let (same, calls) = list_rules-eq_ok w e in
      ground (arith, count-distinct_sources c [] rules, F.listed w)

  carry_out-exact :
      (ns : List ℕ) (cidrs : List String) (w : Trace) {allowed : List String} (c : String)
      → IsDescending ns
      → Numbered ns (rules_at host port protocol w)
      → All (IsPlain as_listed) cidrs
      → ((d : String)
          → count d (sources (survivors ns (rules_at host port protocol w))) + count d cidrs ≤ 1)
      → (carry_out port protocol (ns, cidrs) host w).0 ≡ ok allowed
      → let left =
          count c (sources (survivors ns (rules_at host port protocol w))) + count c cidrs in
        (count c
            (sources (rules_at host port protocol (carry_out port protocol (ns, cidrs) host w).1))
          ≡ left)
        × (count c allowed ≡ (if left == 0 then 0 else 1))
  unfolding carry_out
  carry_out-exact ns cidrs w c d numbered plain once h =
      let (_, deleted, e₁) =
        bind-eq_ok (delete_each ns) (λ _. add_each port protocol cidrs >> reread port protocol) host
          w h in
      let w₁ = (delete_each ns host w).1 in
      let (_, added, e₂) =
        bind-eq_ok (add_each port protocol cidrs) (λ _. reread port protocol) host w₁
          (rw e₁ at h) in
      let w₂ = (add_each port protocol cidrs host w₁).1 in
      let read = reread-exact w₂ c (rw (e₁, e₂) at h) in
      let gone = delete_each-renumber_all ns w d numbered deleted in
      let left = sources-renumber_all (rules_at host port protocol w) d in
      let more = count-add_each cidrs w₁ c plain (λ x. ground (arith, once x)) added in ground arith

  -- Where `ufw` works as documented, everybody is not desired, and each desired source has the form
  -- in which `ufw` lists it, a call of `reconcile` that succeeds leaves exactly one rule for each
  -- desired source and none for any other, and returns each of those sources once and no other.
  pub reconcile_exact :
      (desired : List String)
      → ((d : String) → desires desired d ≡ true → as_listed d ≡ d)
      → (w : Trace) {allowed : List String} (c : String) → desires desired "0.0.0.0/0" ≡ false
      → desires desired "::/0" ≡ false
      → (reconcile port protocol desired host w).0 ≡ ok allowed
      → (count c (sources (rules_at host port protocol (reconcile port protocol desired host w).1))
          ≡ (if desires desired c then 1 else 0))
        × (count c allowed ≡ (if desires desired c then 1 else 0))
  unfolding reconcile
  reconcile_exact desired plain w {allowed} c v4 v6 h =
      let rules = rules_at host port protocol w in
      let plan = diff_allowlist rules desired in
      let (existing, e, f) =
        bind-eq_ok (list_rules_for_port port protocol)
          (λ existing. carry_out port protocol (diff_allowlist existing desired)) host w h in
      let (same, calls) = list_rules-eq_ok w e in
      let moved : reconcile port protocol desired host w
          ≡ carry_out port protocol plan host (status ∷ w) =
        cc in
      let distinct = F.numbered w in
      let done =
        carry_out-exact plan.0 plan.1 (status ∷ w) {allowed = allowed} c
          (diff_allowlist-IsDescending rules desired distinct)
          (rw (F.listed w) (plan-Numbered rules desired))
          (plan-IsPlain as_listed rules desired distinct v4 v6 plain)
          (rw (F.listed w) (plan_once rules desired distinct)) (rw moved at h) in
      let exact = diff_allowlist_exact rules desired c distinct in
      rw moved (ground (arith, F.listed w))
