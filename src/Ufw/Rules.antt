-- ===== src/Ufw/Rules.antt =====
-- `ExistingRule`, `normalizeSource` and `FormatAddRule`
use vmkit_agent.Base.{
  ℕ, String, ◌<>◌, Bool, ◌||◌, not, List, [], ◌∷◌, ◌==ₛ◌, contains, trim_space, trim_suffix, ℤ,
  show_int, if◌then◌else◌,
}

pub record ExistingRule : Type 0 where
  pub rule_number : ℕ
  pub port : ℕ
  pub protocol : String
  pub source : String
  pub ipv6 : Bool

-- the source without white space and without a trailing "(v6)"
with_mask : String → String
with_mask raw =
    if not (contains raw "/")
    then (if contains raw ":" then raw <> "/128" else raw <> "/32")
    else raw

unfoldable pub normalize_source : String → Bool → String
unfolding with_mask trim_space trim_suffix contains
normalize_source text ipv6 =
    let raw = trim_space text in
    if raw ==ₛ "Anywhere" || raw ==ₛ "Anywhere (v6)"
    then (if ipv6 then "::/0" else "0.0.0.0/0")
    else with_mask (trim_space (trim_suffix raw "(v6)"))

abbrev pub is_blanket : String → Bool
is_blanket cidr = cidr ==ₛ "0.0.0.0/0" || cidr ==ₛ "::/0" || cidr ==ₛ ""

unfoldable pub format_add_rule : ℤ → String → String → List String
format_add_rule port protocol cidr =
    if is_blanket cidr
    then "allow" ∷ (show_int port <> "/" <> protocol) ∷ []
    else "allow" ∷ "from" ∷ cidr ∷ "to" ∷ "any" ∷ "port" ∷ show_int port ∷ "proto" ∷ protocol ∷ []
