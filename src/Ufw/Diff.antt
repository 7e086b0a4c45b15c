-- ===== src/Ufw/Diff.antt =====
-- `DiffAllowlist`: which rules to delete and which sources to add. A Go map used as a set is the
-- list of its keys, each once; the sources to add are sorted, so its order does not show.
pub mod Desired
pub mod Exact
use vmkit_agent.Base.{
  ℕ, String, Bool, true, false, not, ◌&&◌, ◌||◌, List, [], ◌∷◌, ◌++◌, ◌==ₛ◌, is_empty, trim_space,
  if◌then◌else◌,
}
use vmkit_agent.Ufw.Rules.{ExistingRule}
use vmkit_agent.Ufw.Parse.{keep}
use vmkit_agent.Ufw.Sort.{sort_desc, sort_strings}

abbrev pub member : String → List String → Bool
member c [] = false
member c (s ∷ ss) = s ==ₛ c || member c ss

-- The loop over `desired`, in front of the keys so far.
unfoldable pub desired_keys : List String → List String → List String
desired_keys keys [] = keys
desired_keys keys (c ∷ cs) =
    let trimmed = trim_space c in
    desired_keys (if is_empty trimmed || member trimmed keys then keys else trimmed ∷ keys) cs

-- An empty set stands for everybody.
unfoldable pub or_blanket : List String → List String
or_blanket [] = "0.0.0.0/0" ∷ []
or_blanket (k ∷ ks) = k ∷ ks

unfoldable pub desired_set : List String → List String
desired_set desired = or_blanket (desired_keys [] desired)

-- The loop over `existing`: the keys of `keep`, and the numbers to delete in the rules' order.
unfoldable pub diff_loop : List String → List String → List ExistingRule → List String × List ℕ
diff_loop wanted kept [] = (kept, [])
diff_loop wanted kept (r ∷ rs) =
    let (kept', nums) = diff_loop wanted (r.source ∷ kept) rs in
    let (kept'', nums') = diff_loop wanted kept rs in
    if member r.source wanted && not (member r.source kept)
    then (kept', nums)
    else (kept'', r.rule_number ∷ nums')

abbrev pub diff_of : List String → List String × List ℕ → List ℕ × List String
diff_of wanted (kept, nums) =
    (sort_desc nums, sort_strings (keep (λ c. not (member c kept)) wanted))

unfoldable pub diff_allowlist : List ExistingRule → List String → List ℕ × List String
diff_allowlist existing desired =
    let wanted = desired_set desired in diff_of wanted (diff_loop wanted [] existing)
