-- ===== src/OpenPort/Plan.antt =====
-- The plan that `reconcile` carries out.
use Prim.Native.String.compare
use vmkit_agent.Base.{
  ◌+◌, ◌≤◌, String, Bool, true, false, not, List, [], ◌∷◌, ◌≡◌, refl, ◌∙◌, arith, ◌==ₛ◌, trim_space,
  is_empty, ◌&&◌, eq_iff, All,
}
use vmkit_agent.Ufw.Rules.{ExistingRule, is_blanket}
use vmkit_agent.Ufw.Sort.{
  count, AllDistinct, IsDescending, sort_desc-IsDescending, num_member-sort_desc,
}
use vmkit_agent.Ufw.Diff.{desired_set, diff_allowlist}
use vmkit_agent.Ufw.Diff.Exact.{
  sources, numbers, survivors, diff_allowlist_exact, numbers-diff_loop, diff_loop_distinct,
}
use vmkit_agent.Ufw.Diff.Desired.{desires, given}
use vmkit_agent.Ufw.Delete.{Numbered}

-- Where the numbers of the rules are distinct, `DiffAllowlist` lists the numbers to delete from the
-- largest to the smallest, each once.
pub diff_allowlist-IsDescending :
    (rules : List ExistingRule) (desired : List String)
    → AllDistinct (numbers rules)
    → IsDescending (diff_allowlist rules desired).0
unfolding diff_allowlist
diff_allowlist-IsDescending rules desired d =
    sort_desc-IsDescending _ (diff_loop_distinct (desired_set desired) [] rules d)

pub plan-Numbered :
    (rules : List ExistingRule) (desired : List String)
    → Numbered (diff_allowlist rules desired).0 rules
unfolding diff_allowlist
plan-Numbered rules desired m out =
    num_member-sort_desc m _ ∙ numbers-diff_loop m (desired_set desired) [] rules out

not_empty_text : (s : String) → (not (is_empty s) && s ==ₛ "") ≡ false
not_empty_text String.[] = refl
not_empty_text (String.◌∷◌ c s) = rw (compare.cons-nil c s)

given_empty : (ds : List String) → given "" ds ≡ false
given_empty [] = refl
given_empty (d ∷ ds) = rw (not_empty_text (trim_space d)) (given_empty ds)

not_blanket :
    (xs : List String)
    → ((c : String) → is_blanket c ≡ true → count c xs ≡ 0)
    → All (λ c. is_blanket c ≡ false) xs
not_blanket [] h = tt
not_blanket (x ∷ xs) h =
    (ground (arith, h x, eq_iff x x), not_blanket xs (λ c b. ground (arith, h c b)))

blanket_undesired :
    (desired : List String)
    → desires desired "0.0.0.0/0" ≡ false
    → desires desired "::/0" ≡ false
    → (c : String) → is_blanket c ≡ true
    → desires desired c ≡ false
blanket_undesired desired v4 v6 c b =
    ground (arith, given_empty desired, eq_iff c "0.0.0.0/0", eq_iff c "::/0", eq_iff c "")

pub plan_not_blanket :
    (rules : List ExistingRule) (desired : List String)
    → AllDistinct (numbers rules)
    → desires desired "0.0.0.0/0" ≡ false
    → desires desired "::/0" ≡ false
    → All (λ c. is_blanket c ≡ false) (diff_allowlist rules desired).1
plan_not_blanket rules desired d v4 v6 = not_blanket _ λ c b.
    ground (arith, diff_allowlist_exact rules desired c d, blanket_undesired desired v4 v6 c b)

all_members :
    (xs : List String) (b : String → Bool)
    → ((c : String) → b c ≡ false → count c xs ≡ 0)
    → All (λ c. b c ≡ true) xs
all_members [] b h = tt
all_members (x ∷ xs) b h =
    (ground (arith, h x, eq_iff x x), all_members xs b (λ c z. ground (arith, h c z)))

pub plan_desired :
    (rules : List ExistingRule) (desired : List String)
    → AllDistinct (numbers rules)
    → All (λ c. desires desired c ≡ true) (diff_allowlist rules desired).1
plan_desired rules desired d =
    all_members _ (desires desired) λ c z. ground (arith, diff_allowlist_exact rules desired c d)

pub plan_once :
    (rules : List ExistingRule) (desired : List String)
    → AllDistinct (numbers rules)
    → (c : String)
    → let plan = diff_allowlist rules desired in
      count c (sources (survivors plan.0 rules)) + count c plan.1 ≤ 1
plan_once rules desired d c = ground (arith, diff_allowlist_exact rules desired c d)
