-- ===== src/Ufw/Delete.antt =====
-- What `ufw delete N` does to the numbering, and why the program deletes from the largest number
-- down: rule `N` goes, and every rule behind it gets the number below its own.
use vmkit_agent.Base.{
  ℕ, ◌-◌, ◌<◌, ◌≤◌, false, true, Bool-cases, inl, inr, List, [], ◌∷◌, ◌≡◌, refl, ◌∙◌, ap, sym,
  arith, ltb, ◌==◌, if◌then◌else◌, All,
}
use vmkit_agent.Ufw.Rules.{ExistingRule}
use vmkit_agent.Ufw.Sort.{num_member, IsDescending, nil, cons}
use vmkit_agent.Ufw.Diff.Exact.{survivors, sources, numbers}

-- The rules after rule `n` was deleted.
abbrev pub renumber : ℕ → List ExistingRule → List ExistingRule
renumber n [] = []
renumber n (r ∷ rs) =
    let rest = renumber n rs in
    if r.rule_number == n
    then rest
    else (if ltb n r.rule_number then record r { rule_number = r.rule_number - 1 } else r) ∷ rest

-- One deletion after the other, each by the number that its rule has by then.
abbrev pub renumber_all : List ℕ → List ExistingRule → List ExistingRule
renumber_all [] rs = rs
renumber_all (n ∷ ns) rs = renumber_all ns (renumber n rs)

pub num_member-below :
    (k : ℕ) (ns : List ℕ) (n : ℕ) → n ≤ k → All (λ m. m < n) ns → num_member k ns ≡ false
num_member-below k [] n le h = refl
num_member-below k (m ∷ ns) n le h = ground (arith, num_member-below k ns n)

-- The rules without their numbers.
abbrev pub unnumbered : List ExistingRule → List ExistingRule
unnumbered [] = []
unnumbered (r ∷ rs) = record r { rule_number = 0 } ∷ unnumbered rs

survivors-renumber :
    (n : ℕ) (ns : List ℕ) (rs : List ExistingRule)
    → All (λ m. m < n) ns
    → unnumbered (survivors ns (renumber n rs)) ≡ unnumbered (survivors (n ∷ ns) rs)
survivors-renumber n ns [] h = refl
survivors-renumber n ns (r ∷ rs) h = ground (
  arith,
  survivors-renumber n ns rs h,
  num_member-below r.rule_number ns n,
  num_member-below (r.rule_number - 1) ns n,
)

survivors-nil : (rs : List ExistingRule) → unnumbered rs ≡ unnumbered (survivors [] rs)
survivors-nil [] = refl
survivors-nil (r ∷ rs) = ap (◌∷◌ (record r { rule_number = 0 })) (survivors-nil rs)

-- Deleting by number, from the largest number down, leaves exactly the rules whose number is not
-- in the list, in their order.
pub renumber_all-IsDescending :
    {ns : List ℕ} (rs : List ExistingRule)
    → IsDescending ns
    → unnumbered (renumber_all ns rs) ≡ unnumbered (survivors ns rs)
renumber_all-IsDescending rs nil = survivors-nil rs
renumber_all-IsDescending rs (cons {n} {ns} below d) =
    renumber_all-IsDescending (renumber n rs) d ∙ survivors-renumber n ns rs below

sources-unnumbered : (rs : List ExistingRule) → sources (unnumbered rs) ≡ sources rs
sources-unnumbered [] = refl
sources-unnumbered (r ∷ rs) = ap (◌∷◌ r.source) (sources-unnumbered rs)

pub sources-renumber_all :
    {ns : List ℕ} (rs : List ExistingRule)
    → IsDescending ns
    → sources (renumber_all ns rs) ≡ sources (survivors ns rs)
sources-renumber_all {ns} rs d =
    sym (sources-unnumbered (renumber_all ns rs))
    ∙ ap sources (renumber_all-IsDescending rs d)
    ∙ sources-unnumbered (survivors ns rs)

num_member-renumber :
    (m n : ℕ) (rs : List ExistingRule)
    → m < n
    → num_member m (numbers (renumber n rs)) ≡ num_member m (numbers rs)
num_member-renumber m n [] h = refl
num_member-renumber m n (r ∷ rs) h = ground (arith, num_member-renumber m n rs h)

-- Each number of the list is one of a rule.
abbrev pub Numbered : List ℕ → List ExistingRule → Type 0
Numbered ns rs = (m : ℕ) → num_member m (numbers rs) ≡ false → num_member m ns ≡ false

pub Numbered-renumber :
    (n : ℕ) (ns : List ℕ) (rs : List ExistingRule)
    → All (λ m. m < n) ns
    → Numbered (n ∷ ns) rs
    → Numbered ns (renumber n rs)
Numbered-renumber n ns rs below h m out = elim (Bool-cases (ltb m n)) [
  | inl lt ↦ ground (arith, h m, num_member-renumber m n rs)
  | inr ge ↦ num_member-below m ns n (ground arith) below
]

pub Numbered-head :
    (n : ℕ) (ns : List ℕ) (rs : List ExistingRule)
    → Numbered (n ∷ ns) rs
    → num_member n (numbers rs) ≡ true
Numbered-head n ns rs h = ground (arith, h n)
