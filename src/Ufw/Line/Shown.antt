-- ===== src/Ufw/Line/Shown.antt =====
-- A rule line as `ufw status numbered` prints it, whatever its widths.
use Prim.Native.Char.{code}
use vmkit_agent.Base.{
  ℕ, zero, suc, String, Bool, true, false, not, ◌&&◌, some, ◌≡◌, refl, arith, is_empty,
  if◌then◌else◌,
}
use vmkit_agent.Ufw.Line.{
  RuleLine, match_line, skip_blanks, some_blanks, some_digits, digits, literal, protocol, v6_mark,
  source_group, is_blank, is_digit,
}

-- One text after another, by clauses
infixr 5 ◌+++◌
abbrev pub ◌+++◌ : String → String → String
String.[] +++ t = t
(String.◌∷◌ c s) +++ t = String.◌∷◌ c (s +++ t)

-- So many spaces
abbrev pub spaces : ℕ → String
spaces zero = ""
spaces (suc n) = " " +++ spaces n

-- What a line shows: its number and port, whether the protocol is udp or else tcp, whether it is of
-- IPv6, its source, and the widths of its gaps
pub record Shown : Type 0 where
  pub pad : ℕ
  pub number : String
  pub port : String
  pub udp : Bool
  pub v6 : Bool
  pub gap : ℕ
  pub source_gap : ℕ
  pub source : String

abbrev pub all_digits : String → Bool
all_digits String.[] = true
all_digits (String.◌∷◌ c s) = is_digit (code c) && all_digits s

abbrev pub begins_text : String → Bool
begins_text String.[] = false
begins_text (String.◌∷◌ c s) = not (is_blank (code c))

pub record IsShown (t : Shown) : Type 0 where
  pub number : (not (is_empty t.number) && all_digits t.number) ≡ true
  pub port : (not (is_empty t.port) && all_digits t.port) ≡ true
  pub source : begins_text t.source ≡ true

abbrev pub proto_of : Shown → String
proto_of t = if t.udp then "udp" else "tcp"

abbrev pub after_proto : Shown → String
after_proto t = spaces (suc t.gap) +++ "ALLOW IN" +++ spaces (suc t.source_gap) +++ t.source

abbrev pub after_port : Shown → String
after_port t = "/" +++ proto_of t +++ (if t.v6 then " (v6)" else "") +++ after_proto t

abbrev pub line : Shown → String
line t = "[" +++ spaces t.pad +++ t.number +++ "] " +++ t.port +++ after_port t

abbrev starts_digit : String → Bool
starts_digit String.[] = false
starts_digit (String.◌∷◌ c s) = is_digit (code c)

blank_digit : (c : ℕ) → is_digit c ≡ true → is_blank c ≡ false
blank_digit c h = ground arith

digits-none : (s : String) → starts_digit s ≡ false → digits s ≡ ("", s)
unfolding digits
digits-none String.[] n = refl
digits-none (String.◌∷◌ c s) n = rw n refl

digits-append :
    (ds s : String) → all_digits ds ≡ true → starts_digit s ≡ false → digits (ds +++ s) ≡ (ds, s)
unfolding digits
digits-append String.[] s h n = digits-none s n
digits-append (String.◌∷◌ c ds) s h n =
    let first : is_digit (code c) ≡ true = ground arith in
    rw (digits-append ds s (ground arith) n, first) refl

some_digits-append :
    (ds s : String)
    → (not (is_empty ds) && all_digits ds) ≡ true
    → starts_digit s ≡ false
    → some_digits (ds +++ s) ≡ some (ds, s)
unfolding some_digits
some_digits-append String.[] s h n = ground arith
some_digits-append (String.◌∷◌ c ds) s h n =
    rw (digits-append (String.◌∷◌ c ds) s (ground arith) n) refl

skip_blanks-spaces : (n : ℕ) (s : String) → skip_blanks (spaces n +++ s) ≡ skip_blanks s
unfolding skip_blanks
skip_blanks-spaces zero s = refl
skip_blanks-spaces (suc n) s = skip_blanks-spaces n s

skip_blanks-text : (s t : String) → begins_text s ≡ true → skip_blanks (s +++ t) ≡ s +++ t
unfolding skip_blanks
skip_blanks-text String.[] t h = ground arith
skip_blanks-text (String.◌∷◌ c s) t h =
    let first : is_blank (code c) ≡ false = ground arith in rw first refl

skip_blanks-all : (s : String) → begins_text s ≡ true → skip_blanks s ≡ s
unfolding skip_blanks
skip_blanks-all String.[] h = ground arith
skip_blanks-all (String.◌∷◌ c s) h =
    let first : is_blank (code c) ≡ false = ground arith in rw first refl

digits-begin : (ds : String) → (not (is_empty ds) && all_digits ds) ≡ true → begins_text ds ≡ true
digits-begin String.[] h = ground arith
digits-begin (String.◌∷◌ c ds) h = ground (arith, blank_digit (code c))

-- What follows the port.
source_group-line :
    (n : ℕ) (s : String) → begins_text s ≡ true → source_group (spaces (suc n) +++ s) ≡ some s
unfolding source_group some_blanks
source_group-line n String.[] h = ground arith
source_group-line n (String.◌∷◌ c s) h =
    rw (skip_blanks-spaces n (String.◌∷◌ c s), skip_blanks-all (String.◌∷◌ c s) h) refl

protocol-line :
    (udp : Bool) (s : String)
    → protocol ((if udp then "udp" else "tcp") +++ s) ≡ some (if udp then "udp" else "tcp", s)
unfolding protocol literal
protocol-line true s = refl
protocol-line false s = refl

v6_mark-line :
    (v6 : Bool) (gap : ℕ) (s : String)
    → v6_mark ((if v6 then " (v6)" else "") +++ spaces (suc gap) +++ "ALLOW IN" +++ s)
      ≡ (v6, spaces (suc gap) +++ "ALLOW IN" +++ s)
unfolding v6_mark some_blanks literal skip_blanks
v6_mark-line true gap s = refl
v6_mark-line false gap s = rw (v6_mark, skip_blanks-spaces gap ("ALLOW IN" +++ s)) refl

abbrev pub rule_line : Shown → RuleLine
rule_line t = record {
  number_text = t.number;
  port_text = t.port;
  protocol = proto_of t;
  v6 = t.v6;
  source_text = t.source;
}

-- A line with a rule's number in brackets, its port and protocol, tcp or udp, the mark of IPv6 or
-- none, ALLOW IN and the source, whatever the widths of its gaps, is read as that rule's parts,
-- each text as it stands in the line. The number and the port are digits, and the source begins
-- with no space.
pub match_line-line : (t : Shown) → IsShown t → match_line (line t) ≡ some (rule_line t)
unfolding match_line literal some_blanks skip_blanks
match_line-line t h =
    let after_source = spaces (suc t.source_gap) +++ t.source in
    let after_number = "] " +++ t.port +++ after_port t in
    rw
      (
        skip_blanks-spaces t.pad (t.number +++ after_number),
        skip_blanks-text t.number after_number (digits-begin t.number h.number),
        some_digits-append t.number after_number h.number refl,
        skip_blanks-text t.port (after_port t) (digits-begin t.port h.port),
        some_digits-append t.port (after_port t) h.port refl,
        protocol-line t.udp ((if t.v6 then " (v6)" else "") +++ after_proto t),
        v6_mark-line t.v6 t.gap after_source,
        skip_blanks-spaces t.gap ("ALLOW IN" +++ after_source),
        source_group-line t.source_gap t.source h.source,
      )
      refl
