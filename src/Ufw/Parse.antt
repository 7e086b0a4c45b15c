-- ===== src/Ufw/Parse.antt =====
-- `ParseAllUFWAllowRules` and `ParseUFWRulesForPort`
use Prim.Native.Char.{code}
use vmkit_agent.Base.{
  ℕ, ◌+◌, ◌-◌, ◌*◌, ◌^◌, String, Bool, true, false, ◌&&◌, ◌||◌, not, Option, none, some, List, [],
  ◌∷◌, arith, ◌≡◌, refl, ◌==◌, ◌==ₛ◌, leb, ltb, is_empty, trim_space, split_at, byte_count,
  if◌then◌else◌, ℤ, pos, int_eq,
}
use vmkit_agent.Ufw.Rules.{ExistingRule, normalize_source}
use vmkit_agent.Ufw.Line.{
  RuleLine, match_line, source_group, v6_mark, protocol, literal, some_digits, digits, some_blanks,
  skip_blanks, ◌>>=◌,
}

-- The value of a run of digits, and `strconv.Atoi` of one: no error below 2^63, and the largest
-- number beside the error above.
unfoldable pub value : ℕ → String → ℕ
value acc String.[] = acc
value acc (String.◌∷◌ c s) = value (acc * 10 + (code c - 48)) s

abbrev fits : ℕ → Bool
fits n = ltb n (2 ^ 63)

abbrev clamped : ℕ → ℕ
clamped n = if fits n then n else 2 ^ 63 - 1

-- `bufio.Scanner` over lines: a carriage return at the end is dropped, and a line of 64 KiB or more
-- ends the scan. The last, empty line that a final newline leaves matches nothing.
unfoldable pub drop_return : String → String
drop_return String.[] = ""
drop_return (String.◌∷◌ c s) =
    let rest = drop_return s in if code c == 13 && is_empty s then "" else String.◌∷◌ c rest

unfoldable pub until_long : List String → List String
until_long [] = []
until_long (line ∷ rest) =
    let more = until_long rest in
    if leb 65536 (byte_count line) then [] else drop_return line ∷ more

unfoldable pub scan_lines : String → List String
scan_lines text = until_long (split_at 10 text)

unfoldable pub to_rule : RuleLine → ExistingRule
to_rule m = record {
  rule_number = clamped (value 0 m.number_text);
  port = value 0 m.port_text;
  protocol = m.protocol;
  source = normalize_source (trim_space m.source_text) m.v6;
  ipv6 = m.v6;
}

-- The loop bodies: the rule of a line, or none where the loop goes on.
unfoldable pub any_rule : String → Option ExistingRule
any_rule line = do
  m ← match_line line
  if fits (value 0 m.port_text) then some (to_rule m) else none

unfoldable pub port_rule : ℤ → String → String → Option ExistingRule
port_rule port proto line = do
  m ← match_line line
  let number = value 0 m.port_text
  let other_port = not (fits number) || not (int_eq (pos number) port)
  let other = other_port || not (m.protocol ==ₛ proto)
  if other then none else some (to_rule m)

unfoldable pub collect : (String → Option ExistingRule) → List String → List ExistingRule
collect f [] = []
collect f (line ∷ lines) =
    let rest = collect f lines in elim (f line) [ some r ↦ r ∷ rest | none ↦ rest ]

unfoldable pub parse_all_ufw_allow_rules : String → List ExistingRule
unfolding collect any_rule match_line to_rule scan_lines until_long byte_count drop_return value
    source_group v6_mark protocol literal some_digits digits some_blanks skip_blanks
    normalize_source split_at
parse_all_ufw_allow_rules status = collect any_rule (scan_lines status)

unfoldable pub parse_ufw_rules_for_port : String → ℤ → String → List ExistingRule
unfolding collect port_rule match_line to_rule scan_lines until_long byte_count drop_return value
    source_group v6_mark protocol literal some_digits digits some_blanks skip_blanks
    normalize_source split_at
parse_ufw_rules_for_port status port proto = collect (port_rule port proto) (scan_lines status)

-- The rule is for this port and protocol.
abbrev pub targets : ℤ → String → ExistingRule → Bool
targets port proto r = int_eq (pos r.port) port && r.protocol ==ₛ proto

abbrev pub keep {ℓ} : {A : Type ℓ} → (A → Bool) → List A → List A
keep p [] = []
keep p (x ∷ xs) = let rest = keep p xs in if p x then x ∷ rest else rest

-- The reader for one port gives exactly the rules of the reader for all ports that are for this
-- port and protocol, in order, whatever the text.
pub parse_ufw_rules_for_port-keep :
    (status : String) (port : ℤ) (proto : String)
    → parse_ufw_rules_for_port status port proto
      ≡ keep (targets port proto) (parse_all_ufw_allow_rules status)
unfolding collect port_rule any_rule to_rule
parse_ufw_rules_for_port-keep status port proto =
    unfold parse_ufw_rules_for_port parse_all_ufw_allow_rules in go (scan_lines status)
  where
    go :
        (lines : List String)
        → collect (port_rule port proto) lines ≡ keep (targets port proto) (collect any_rule lines)
    go [] = refl
    go (line ∷ lines) = ground (arith, go lines)

sample :
    parse_all_ufw_allow_rules
      "Status: active\n\n     To                         Action      From\n     --                         ------      ----\n[ 1] 22/tcp                     ALLOW IN    Anywhere\n[ 2] 15432/tcp                  ALLOW IN    203.0.113.4\n[ 3] 15432/tcp                  DENY IN    10.0.0.1\n[12] 15432/tcp (v6)             ALLOW IN    Anywhere (v6)             \r\n"
    ≡ record { rule_number = 1; port = 22; protocol = "tcp"; source = "0.0.0.0/0"; ipv6 = false }
      ∷ record {
        rule_number = 2;
        port = 15432;
        protocol = "tcp";
        source = "203.0.113.4/32";
        ipv6 = false;
      }
      ∷ record { rule_number = 12; port = 15432; protocol = "tcp"; source = "::/0"; ipv6 = true }
      ∷ []
unfolding parse_all_ufw_allow_rules
sample = refl
