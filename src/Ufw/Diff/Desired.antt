-- ===== src/Ufw/Diff/Desired.antt =====
-- The set of desired sources.
use vmkit_agent.Base.{
  ℕ, String, Bool, true, false, not, ◌&&◌, ◌||◌, List, [], ◌∷◌, ◌≡◌, refl, arith, ◌==ₛ◌, eq_iff,
  is_empty, trim_space,
}
use vmkit_agent.Ufw.Sort.{count}
use vmkit_agent.Ufw.Diff.{member, desired_keys, desired_set, or_blanket}

abbrev pub one_if : Bool → ℕ
one_if true = 1
one_if false = 0

-- Each key once.
abbrev pub IsSetOf : List String → Type 0
IsSetOf keys = (c : String) → count c keys ≡ one_if (member c keys)

desired_keys-IsSetOf : (cs keys : List String) → IsSetOf keys → IsSetOf (desired_keys keys cs)
unfolding desired_keys
desired_keys-IsSetOf [] keys h = h
desired_keys-IsSetOf (x ∷ cs) keys h =
    desired_keys-IsSetOf cs _ λ c. ground (arith, h c, eq_iff (trim_space x) c)

or_blanket-IsSetOf : (keys : List String) → IsSetOf keys → IsSetOf (or_blanket keys)
unfolding or_blanket
or_blanket-IsSetOf [] h c = ground arith
or_blanket-IsSetOf (k ∷ ks) h c = h c

pub desired_set-IsSetOf : (desired : List String) → IsSetOf (desired_set desired)
unfolding desired_set
desired_set-IsSetOf desired = or_blanket-IsSetOf _ (desired_keys-IsSetOf desired [] (λ c. refl))

-- `c` is given, apart from white space round it.
abbrev pub given : String → List String → Bool
given c [] = false
given c (d ∷ ds) = (not (is_empty (trim_space d)) && trim_space d ==ₛ c) || given c ds

abbrev pub all_blank : List String → Bool
all_blank [] = true
all_blank (d ∷ ds) = is_empty (trim_space d) && all_blank ds

abbrev pub desires : List String → String → Bool
desires desired c = given c desired || (all_blank desired && "0.0.0.0/0" ==ₛ c)

abbrev is_nil : List String → Bool
is_nil [] = true
is_nil (k ∷ ks) = false

member-desired_keys :
    (c : String) (ds keys : List String)
    → member c (desired_keys keys ds) ≡ (member c keys || given c ds)
unfolding desired_keys
member-desired_keys c [] keys = ground arith
member-desired_keys c (d ∷ ds) keys = ground (
  arith,
  member-desired_keys c ds keys,
  member-desired_keys c ds (trim_space d ∷ keys),
  eq_iff (trim_space d) c,
)

is_nil-desired_keys :
    (ds keys : List String) → is_nil (desired_keys keys ds) ≡ (is_nil keys && all_blank ds)
unfolding desired_keys
is_nil-desired_keys [] keys = ground arith
is_nil-desired_keys (d ∷ ds) keys =
    ground (arith, is_nil-desired_keys ds keys, is_nil-desired_keys ds (trim_space d ∷ keys))

member-or_blanket :
    (c : String) (keys : List String)
    → member c (or_blanket keys) ≡ (member c keys || (is_nil keys && "0.0.0.0/0" ==ₛ c))
unfolding or_blanket
member-or_blanket c [] = ground arith
member-or_blanket c (k ∷ ks) = ground arith

pub member-desired_set :
    (c : String) (desired : List String) → member c (desired_set desired) ≡ desires desired c
unfolding desired_set
member-desired_set c desired = ground (
  arith,
  member-or_blanket c (desired_keys [] desired),
  member-desired_keys c desired [],
  is_nil-desired_keys desired [],
)
