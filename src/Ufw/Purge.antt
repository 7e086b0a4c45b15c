-- ===== src/Ufw/Purge.antt =====
-- The deletion of all rules that a test picks, by `sudo ufw --force delete N` from the largest
-- number down, as internal/destroy and internal/resetvm do it.
use vmkit_agent.Base.{
  ℕ, String, Bool, true, false, not, List, [], ◌∷◌, ◌≡◌, refl, ◌∙◌, ap, sym, arith, itoa, All,
  Bool-cases, inl, inr,
}
use mathlib.Core.Path.{subst}
use vmkit_agent.Host.{Call, Host, Trace, Reply, ok, M, ◌>>◌, return, require, succeeded, cmd}
use vmkit_agent.Ufw.Rules.{ExistingRule}
use vmkit_agent.Ufw.Parse.{parse_all_ufw_allow_rules, keep}
use vmkit_agent.Ufw.Sort.{
  num_member, AllDistinct, IsDescending, cons, sort_desc, sort_desc-IsDescending,
  num_member-sort_desc,
}
use vmkit_agent.Ufw.Diff.Exact.{numbers, survivors}
use vmkit_agent.Ufw.Delete.{
  renumber, renumber_all, unnumbered, renumber_all-IsDescending, Numbered, Numbered-renumber,
  Numbered-head,
}

abbrev pub sudo_status : Call
sudo_status = cmd 0 ("sudo" ∷ "ufw" ∷ "status" ∷ "numbered" ∷ [])

abbrev pub sudo_delete : ℕ → Call
sudo_delete n = cmd 0 ("sudo" ∷ "ufw" ∷ "--force" ∷ "delete" ∷ itoa n ∷ [])

-- The loop over the numbers; `wrap` is the text of an error.
unfoldable pub delete_rules : (ℕ → Reply → String) → List ℕ → M (Unit {0})
delete_rules wrap [] = return tt
delete_rules wrap (n ∷ ns) = do require (sudo_delete n) (wrap n); delete_rules wrap ns

abbrev pub numbers_of : (ExistingRule → Bool) → List ExistingRule → List ℕ
numbers_of p rs = sort_desc (numbers (keep p rs))

-- All rules that `sudo ufw status numbered` shows after these calls.
abbrev pub all_rules : Host → Trace → List ExistingRule
all_rules host w = parse_all_ufw_allow_rules (host sudo_status w).output

-- What `ufw` documents: the listing changes nothing and numbers the rules apart, and a deletion
-- that succeeds takes away the rule with the number and moves the later ones up.
pub record IsNumberedFirewall (host : Host) : Type 0 where
  pub listed : (w : Trace) → all_rules host (sudo_status ∷ w) ≡ all_rules host w
  pub numbered : (w : Trace) → AllDistinct (numbers (all_rules host w))
  pub deleted :
      (w : Trace) (n : ℕ)
      → num_member n (numbers (all_rules host w)) ≡ true
      → succeeded (host (sudo_delete n) w) ≡ true
      → all_rules host (sudo_delete n ∷ w) ≡ renumber n (all_rules host w)

num_member-keep :
    (p : ExistingRule → Bool) (m : ℕ) (rs : List ExistingRule)
    → num_member m (numbers rs) ≡ false
    → num_member m (numbers (keep p rs)) ≡ false
num_member-keep p m [] h = refl
num_member-keep p m (r ∷ rs) h = ground (arith, num_member-keep p m rs)

AllDistinct-keep :
    (p : ExistingRule → Bool) (rs : List ExistingRule)
    → AllDistinct (numbers rs)
    → AllDistinct (numbers (keep p rs))
AllDistinct-keep p [] d = tt
AllDistinct-keep p (r ∷ rs) (fresh, d) = elim (Bool-cases (p r)) [
  | inl picked ↦ rw picked (num_member-keep p r.rule_number rs fresh, AllDistinct-keep p rs d)
  | inr left ↦ rw left (AllDistinct-keep p rs d)
]

numbers_of-IsDescending :
    (p : ExistingRule → Bool) (rs : List ExistingRule)
    → AllDistinct (numbers rs)
    → IsDescending (numbers_of p rs)
numbers_of-IsDescending p rs d = sort_desc-IsDescending _ (AllDistinct-keep p rs d)

numbers_of-Numbered :
    (p : ExistingRule → Bool) (rs : List ExistingRule) → Numbered (numbers_of p rs) rs
numbers_of-Numbered p rs m out = num_member-sort_desc m _ ∙ num_member-keep p m rs out

-- Where the list holds the numbers of the rules of `p` only, the other rules survive.
keep-survivors :
    (p : ExistingRule → Bool) (ns : List ℕ) (rs : List ExistingRule)
    → All (λ r. num_member r.rule_number ns ≡ p r) rs
    → survivors ns rs ≡ keep (λ r. not (p r)) rs
keep-survivors p ns [] h = refl
keep-survivors p ns (r ∷ rs) h = ground (arith, keep-survivors p ns rs)

-- A number in front of the list that no rule has changes nothing.
members_later :
    (p : ExistingRule → Bool) (n : ℕ) (ns : List ℕ) (rs : List ExistingRule)
    → num_member n (numbers rs) ≡ false
    → All (λ r. num_member r.rule_number ns ≡ p r) rs
    → All (λ r. num_member r.rule_number (n ∷ ns) ≡ p r) rs
members_later p n ns [] fresh h = tt
members_later p n ns (r ∷ rs) fresh h = (ground arith, members_later p n ns rs (ground arith) h.1)

members-keep :
    (p : ExistingRule → Bool) (rs : List ExistingRule)
    → AllDistinct (numbers rs)
    → All (λ r. num_member r.rule_number (numbers (keep p rs)) ≡ p r) rs
members-keep p [] d = tt
members-keep p (r ∷ rs) (fresh, d) = elim (Bool-cases (p r)) [
  | inl picked ↦
      let ns = numbers (keep p rs) in
      let same : r.rule_number ∷ ns ≡ numbers (keep p (r ∷ rs)) = rw picked refl in
      subst (λ ms. All (λ x. num_member x.rule_number ms ≡ p x) (r ∷ rs)) same
        (ground arith, members_later p r.rule_number ns rs fresh (members-keep p rs d))
  | inr left ↦
      let same : numbers (keep p rs) ≡ numbers (keep p (r ∷ rs)) = rw left refl in
      subst (λ ms. All (λ x. num_member x.rule_number ms ≡ p x) (r ∷ rs)) same
        (num_member-keep p r.rule_number rs fresh ∙ sym left, members-keep p rs d)
]

members-sort_desc :
    (p : ExistingRule → Bool) (ns : List ℕ) (rs : List ExistingRule)
    → All (λ r. num_member r.rule_number ns ≡ p r) rs
    → All (λ r. num_member r.rule_number (sort_desc ns) ≡ p r) rs
members-sort_desc p ns [] h = tt
members-sort_desc p ns (r ∷ rs) h =
    (num_member-sort_desc r.rule_number ns ∙ h.0, members-sort_desc p ns rs h.1)

module _ (host : Host) (F : IsNumberedFirewall host) (wrap : ℕ → Reply → String) where
  delete_rules-renumber_all :
      (ns : List ℕ) (w : Trace)
      → IsDescending ns
      → Numbered ns (all_rules host w)
      → (delete_rules wrap ns host w).0 ≡ ok tt
      → all_rules host (delete_rules wrap ns host w).1 ≡ renumber_all ns (all_rules host w)
  unfolding delete_rules
  delete_rules-renumber_all [] w d h e = refl
  delete_rules-renumber_all (n ∷ ns) w (cons below d) h e =
      let rules = all_rules host w in
      let fine : succeeded (host (sudo_delete n) w) ≡ true = ground arith in
      let gone = F.deleted w n (Numbered-head n ns rules h) fine in
      let rest =
        delete_rules-renumber_all ns (sudo_delete n ∷ w) d
          (rw gone (Numbered-renumber n ns rules below h)) in
      ground (arith, gone, rest (ground arith))

  -- If all the deletions succeed, the rules that the test does not pick stand, in their order,
  -- and no other.
  pub delete_rules-keep :
      (p : ExistingRule → Bool) (w : Trace)
      → (delete_rules wrap (numbers_of p (all_rules host w)) host w).0 ≡ ok tt
      → unnumbered (all_rules host (delete_rules wrap (numbers_of p (all_rules host w)) host w).1)
        ≡ unnumbered (keep (λ r. not (p r)) (all_rules host w))
  delete_rules-keep p w h =
      let rules = all_rules host w in
      let ns = numbers_of p rules in
      let distinct = F.numbered w in
      let down = numbers_of-IsDescending p rules distinct in
      ap unnumbered (delete_rules-renumber_all ns w down (numbers_of-Numbered p rules) h)
      ∙ renumber_all-IsDescending rules down
      ∙ ap unnumbered
          (keep-survivors p ns rules (members-sort_desc p _ rules (members-keep p rules distinct)))
