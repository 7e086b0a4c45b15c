-- ===== src/Ufw/Line.antt =====
-- The lines of `ufw status numbered`, by `ufwLineRE`. The regular expression is read from the left:
-- no two of its neighbouring parts can begin with the same character, so that the longest match of
-- each part is the only one, but for the spaces in front of an empty source.
pub mod Shown
use Prim.Native.Char.{code}
use Prim.Native.String.{len}
use vmkit_agent.Base.{
  ℕ, String, Bool, true, false, ◌&&◌, ◌||◌, Option, none, some, ◌==◌, leb, is_empty, if◌then◌else◌,
}

infixl 5 ◌>>=◌ ◌>>◌
abbrev pub ◌>>=◌ : {A B : Type 0} → Option A → (A → Option B) → Option B
none >>= f = none
some a >>= f = f a

abbrev pub ◌>>◌ : {B : Type 0} → Option (Unit {0}) → Option B → Option B
m >> k = m >>= λ _. k

-- `\s` of Go's regular expressions
abbrev pub is_blank : ℕ → Bool
is_blank c = c == 9 || c == 10 || c == 12 || c == 13 || c == 32

abbrev pub is_digit : ℕ → Bool
is_digit c = leb 48 c && leb c 57

-- `\s*` and `\s+`
unfoldable pub skip_blanks : String → String
skip_blanks String.[] = ""
skip_blanks (String.◌∷◌ c s) = if is_blank (code c) then skip_blanks s else String.◌∷◌ c s

unfoldable pub some_blanks : String → Option String
some_blanks String.[] = none
some_blanks (String.◌∷◌ c s) = if is_blank (code c) then some (skip_blanks s) else none

-- `\d*`: the digits and what follows them
unfoldable pub digits : String → String × String
digits String.[] = ("", "")
digits (String.◌∷◌ c s) =
    let (ds, rest) = digits s in
    if is_digit (code c) then (String.◌∷◌ c ds, rest) else ("", String.◌∷◌ c s)

unfoldable pub some_digits : String → Option (String × String)
some_digits s = let (ds, rest) = digits s in if is_empty ds then none else some (ds, rest)

-- a literal part
unfoldable pub literal : String → String → Option String
literal String.[] s = some s
literal (String.◌∷◌ c t) String.[] = none
literal (String.◌∷◌ c t) (String.◌∷◌ d s) =
    let rest = literal t s in if code c == code d then rest else none

-- `(tcp|udp)`
unfoldable pub protocol : String → Option (String × String)
protocol s = elim (literal "tcp" s) [
  | some rest ↦ some ("tcp", rest)
  | none ↦ elim (literal "udp" s) [ some rest ↦ some ("udp", rest) | none ↦ none ]
]

-- `(\s+\(v6\))?`
unfoldable pub v6_mark : String → Bool × String
v6_mark s = elim (do rest ← some_blanks s; literal "(v6)" rest) [
  | some rest ↦ (true, rest)
  | none ↦ (false, s)
]

-- `\s+(.+?)\s*$`. The program takes the white space off the group at once, so the trailing one may
-- stay here. If only blanks are left, the group is the last of them, and there must be two.
unfoldable pub source_group : String → Option String
source_group s = do rest ← some_blanks s; if is_empty rest && leb (len s) 1 then none else some rest

pub record RuleLine : Type 0 where
  pub number_text : String
  pub port_text : String
  pub protocol : String
  pub v6 : Bool
  pub source_text : String

-- `ufwLineRE.FindStringSubmatch`
unfoldable pub match_line : String → Option RuleLine
match_line line = do
  opened ← literal "[" (skip_blanks line)
  (number, after_number) ← some_digits (skip_blanks opened)
  closed ← literal "]" (skip_blanks after_number)
  at_port ← some_blanks closed
  (port, after_port) ← some_digits at_port
  slashed ← literal "/" after_port
  (proto, after_proto) ← protocol slashed
  let (v6, after_v6) = v6_mark after_proto
  at_allow ← some_blanks after_v6
  allowed ← literal "ALLOW" at_allow
  at_in ← some_blanks allowed
  inbound ← literal "IN" at_in
  source ← source_group inbound
  some (record {
    number_text = number;
    port_text = port;
    protocol = proto;
    v6 = v6;
    source_text = source;
  })
