-- ===== src/Ufw/Diff/Exact.antt =====
-- After the plan of `DiffAllowlist`, the port has exactly the desired sources, each once.
use vmkit_agent.Base.{
  ℕ, ◌+◌, String, false, not, ◌&&◌, List, [], ◌∷◌, ◌≡◌, refl, ◌∙◌, arith, if◌then◌else◌, eq_iff,
}
use vmkit_agent.Ufw.Rules.{ExistingRule}
use vmkit_agent.Ufw.Parse.{keep}
use vmkit_agent.Ufw.Sort.{
  count, num_member, AllDistinct, sort_desc, num_member-sort_desc, count-sort_strings,
}
use vmkit_agent.Ufw.Diff.Desired.{one_if, desired_set-IsSetOf, desires, member-desired_set}
use vmkit_agent.Ufw.Diff.{member, desired_set, diff_loop, diff_allowlist}

-- The rules that the loop lets stand.
kept_rules : List String → List String → List ExistingRule → List ExistingRule
kept_rules wanted kept [] = []
kept_rules wanted kept (r ∷ rs) =
    let with = kept_rules wanted (r.source ∷ kept) rs in
    let without = kept_rules wanted kept rs in
    if member r.source wanted && not (member r.source kept) then r ∷ with else without

abbrev pub sources : List ExistingRule → List String
sources [] = []
sources (r ∷ rs) = r.source ∷ sources rs

-- The loop's keys are those it started with and the sources of the rules that stand.
member-diff_loop :
    (c : String) (wanted kept : List String) (rs : List ExistingRule)
    → one_if (member c (diff_loop wanted kept rs).0)
      ≡ one_if (member c kept) + count c (sources (kept_rules wanted kept rs))
unfolding diff_loop kept_rules
member-diff_loop c wanted kept [] = omega arith
member-diff_loop c wanted kept (r ∷ rs) = ground (
  arith,
  eq_iff r.source c,
  member-diff_loop c wanted (r.source ∷ kept) rs,
  member-diff_loop c wanted kept rs,
)

-- A rule stands only for a wanted source.
kept-wanted :
    (c : String) (wanted kept : List String) (rs : List ExistingRule)
    → member c wanted ≡ false
    → count c (sources (kept_rules wanted kept rs)) ≡ 0
unfolding kept_rules
kept-wanted c wanted kept [] h = refl
kept-wanted c wanted kept (r ∷ rs) h = ground (
  arith,
  eq_iff r.source c,
  kept-wanted c wanted (r.source ∷ kept) rs,
  kept-wanted c wanted kept rs,
)

count-keep :
    (c : String) (kept wanted : List String)
    → count c (keep (λ s. not (member s kept)) wanted)
      ≡ (if member c kept then 0 else count c wanted)
count-keep c kept [] = ground arith
count-keep c kept (s ∷ ss) = ground (arith, eq_iff s c, count-keep c kept ss)

-- The rules whose numbers are not listed.
abbrev pub survivors : List ℕ → List ExistingRule → List ExistingRule
survivors ns = keep (λ r. not (num_member r.rule_number ns))

abbrev pub numbers : List ExistingRule → List ℕ
numbers [] = []
numbers (r ∷ rs) = r.rule_number ∷ numbers rs

survivors-cons :
    (n : ℕ) (ns : List ℕ) (rs : List ExistingRule)
    → num_member n (numbers rs) ≡ false
    → survivors (n ∷ ns) rs ≡ survivors ns rs
survivors-cons n ns [] h = refl
survivors-cons n ns (r ∷ rs) h = ground (arith, survivors-cons n ns rs)

survivors-members :
    (ns ms : List ℕ) (rs : List ExistingRule)
    → ((n : ℕ) → num_member n ns ≡ num_member n ms)
    → survivors ns rs ≡ survivors ms rs
survivors-members ns ms [] e = refl
survivors-members ns ms (r ∷ rs) e = ground (arith, e r.rule_number, survivors-members ns ms rs e)

-- Only numbers of the rules are deleted.
pub numbers-diff_loop :
    (n : ℕ) (wanted kept : List String) (rs : List ExistingRule)
    → num_member n (numbers rs) ≡ false
    → num_member n (diff_loop wanted kept rs).1 ≡ false
unfolding diff_loop
numbers-diff_loop n wanted kept [] h = refl
numbers-diff_loop n wanted kept (r ∷ rs) h =
    ground
      (arith, numbers-diff_loop n wanted (r.source ∷ kept) rs, numbers-diff_loop n wanted kept rs)

pub diff_loop_distinct :
    (wanted kept : List String) (rs : List ExistingRule)
    → AllDistinct (numbers rs)
    → AllDistinct (diff_loop wanted kept rs).1
unfolding diff_loop
diff_loop_distinct wanted kept [] d = tt
diff_loop_distinct wanted kept (r ∷ rs) d = ground (
  arith,
  numbers-diff_loop r.rule_number wanted kept rs d.0,
  diff_loop_distinct wanted kept rs d.1,
  diff_loop_distinct wanted (r.source ∷ kept) rs d.1,
)

survivors-diff_loop :
    (wanted kept : List String) (rs : List ExistingRule)
    → AllDistinct (numbers rs)
    → survivors (diff_loop wanted kept rs).1 rs ≡ kept_rules wanted kept rs
unfolding diff_loop kept_rules
survivors-diff_loop wanted kept [] d = refl
survivors-diff_loop wanted kept (r ∷ rs) d = ground (
  arith,
  survivors-diff_loop wanted (r.source ∷ kept) rs d.1,
  survivors-diff_loop wanted kept rs d.1,
  numbers-diff_loop r.rule_number wanted (r.source ∷ kept) rs d.0,
  survivors-cons r.rule_number (diff_loop wanted kept rs).1 rs d.0,
)

-- Take the rules of a port, with distinct numbers, and do what the plan says: delete the rules
-- with the listed numbers, and add a rule for each listed source. Then a source has exactly one
-- rule if it is desired, and none if not. Desired are the given sources, without white space
-- round them and without blank ones, or only 0.0.0.0/0 if all are blank.
pub diff_allowlist_exact :
    (existing : List ExistingRule) (desired : List String) (c : String)
    → AllDistinct (numbers existing)
    → let (to_delete, to_add) = diff_allowlist existing desired in
      count c (sources (survivors to_delete existing)) + count c to_add
      ≡ (if desires desired c then 1 else 0)
unfolding diff_allowlist
diff_allowlist_exact existing desired c d =
    let wanted = desired_set desired in
    let (kept, nums) = diff_loop wanted [] existing in
    let same =
      survivors-members (sort_desc nums) nums existing (λ n. num_member-sort_desc n nums)
      ∙ survivors-diff_loop wanted [] existing d in
    ground (
      arith,
      same,
      count-sort_strings c (keep (λ s. not (member s kept)) wanted),
      count-keep c kept wanted,
      member-diff_loop c wanted [] existing,
      kept-wanted c wanted [] existing,
      desired_set-IsSetOf desired c,
      member-desired_set c desired,
    )
