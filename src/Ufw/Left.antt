-- ===== src/Ufw/Left.antt =====
-- The rule lines of a listing, against the rules that the program reads in it.
use vmkit_agent.Base.{
  ◌^◌, String, Bool, true, false, not, ◌&&◌, ◌||◌, some, List, [], ◌∷◌, ◌≡◌, refl, ◌∙◌, ap, sym,
  arith, ◌==ₛ◌, eq_iff, ltb, Bool-cases, inl, inr,
}
use vmkit_agent.Ufw.Rules.{ExistingRule}
use vmkit_agent.Ufw.Line.Shown.{Shown, IsShown, line, rule_line, match_line-line}
use vmkit_agent.Ufw.Parse.{
  value, scan_lines, to_rule, any_rule, collect, parse_all_ufw_allow_rules, keep,
}
use vmkit_agent.Ufw.Delete.{unnumbered}

abbrev has_line : String → List String → Bool
has_line l [] = false
has_line l (x ∷ xs) = x ==ₛ l || has_line l xs

-- The line of the rule is in the listing, as far as the program's scanner comes.
abbrev pub shows : Shown → String → Bool
shows t listing = has_line (line t) (scan_lines listing)

-- The number of the port is small enough for `strconv.Atoi`, as that of every port is.
abbrev pub port_fits : Shown → Bool
port_fits t = ltb (value 0 t.port) (2 ^ 63)

-- The rule that the line shows
abbrev pub rule_of : Shown → ExistingRule
rule_of t = to_rule (rule_line t)

abbrev all_of : (ExistingRule → Bool) → List ExistingRule → Bool
all_of p [] = true
all_of p (r ∷ rs) = p r && all_of p rs

all_of-keep : (p : ExistingRule → Bool) (rs : List ExistingRule) → all_of p (keep p rs) ≡ true
all_of-keep p [] = refl
all_of-keep p (r ∷ rs) = ground (arith, all_of-keep p rs)

all_of-unnumbered :
    (p : ExistingRule → Bool) (rs : List ExistingRule)
    → ((r : ExistingRule) → p (record r { rule_number = 0 }) ≡ p r)
    → all_of p (unnumbered rs) ≡ all_of p rs
all_of-unnumbered p [] same = refl
all_of-unnumbered p (r ∷ rs) same = rw (same r, all_of-unnumbered p rs same) refl

any_rule-line : (t : Shown) → IsShown t → port_fits t ≡ true → any_rule (line t) ≡ some (rule_of t)
unfolding any_rule
any_rule-line t h small = rw (match_line-line t h, small) refl

all_of-collect :
    (p : ExistingRule → Bool) (r : ExistingRule) (l : String) (ls : List String)
    → any_rule l ≡ some r
    → all_of p (collect any_rule ls) ≡ true
    → has_line l ls ≡ true
    → p r ≡ true
unfolding collect
all_of-collect p r l [] e a h = ground arith
all_of-collect p r l (x ∷ xs) e a h = elim (Bool-cases (x ==ₛ l)) [
  | inl this ↦ let same : x ≡ l = ground (arith, eq_iff x l) in ground arith
  | inr other ↦ ground (arith, all_of-collect p r l xs e)
]

-- Where the rules that are left are those of a test, without their numbers, each rule line for tcp
-- or udp of the listing is of a rule that the test accepts.
pub left-shows :
    (p : ExistingRule → Bool) (before : List ExistingRule) (listing : String) (t : Shown)
    → ((r : ExistingRule) → p (record r { rule_number = 0 }) ≡ p r)
    → unnumbered (parse_all_ufw_allow_rules listing) ≡ unnumbered (keep p before)
    → IsShown t
    → port_fits t ≡ true
    → (not (shows t listing) || p (rule_of t)) ≡ true
unfolding parse_all_ufw_allow_rules
left-shows p before listing t same left shown small =
    let rules = parse_all_ufw_allow_rules listing in
    let all : all_of p rules ≡ true =
      sym (all_of-unnumbered p rules same)
      ∙ ap (all_of p) left
      ∙ all_of-unnumbered p (keep p before) same
      ∙ all_of-keep p before in
    elim (Bool-cases (shows t listing)) [
      | inl there ↦
          let fine =
            all_of-collect p (rule_of t) (line t) (scan_lines listing) (any_rule-line t shown small)
              all there in
          rw (there, fine) refl
      | inr absent ↦ rw absent refl
    ]
