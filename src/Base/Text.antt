-- ===== src/Base/Text.antt =====
-- What the program uses of Go's `strings`, `strconv.Itoa` and `fmt`, over texts of code points.
use Prim.Native.Nat.{ℕ, zero, suc, ◌+◌, ◌-◌, ◌*◌, ◌/◌, ◌%◌, ◌^◌}
use Prim.Native.Char.{Char, code}
use Prim.Native.String.{String, ◌++◌ as ◌<>◌}
use mathlib.Core.Path.{◌≡◌, refl}
use mathlib.Core.Bool.{Bool, true, false, ◌&&◌, ◌||◌}
use mathlib.Core.List.{List, [], ◌∷◌}
use text.Mathlib.Text.{starts_with, ◌==◌ as ◌==ₛ◌}
use vmkit_agent.Base.Tests.{ltb, leb, ◌==◌, if◌then◌else◌}

-- `unicode.IsSpace`
abbrev pub is_space : ℕ → Bool
is_space c =
    (leb 9 c && leb c 13)
    || c == 32
    || c == 0x85
    || c == 0xa0
    || c == 0x1680
    || (leb 0x2000 c && leb c 0x200a)
    || c == 0x2028
    || c == 0x2029
    || c == 0x202f
    || c == 0x205f
    || c == 0x3000

abbrev pub is_empty : String → Bool
is_empty String.[] = true
is_empty (String.◌∷◌ c s) = false

unfoldable pub trim_left : String → String
trim_left String.[] = ""
trim_left (String.◌∷◌ c s) = if is_space (code c) then trim_left s else String.◌∷◌ c s

unfoldable pub trim_right : String → String
trim_right String.[] = ""
trim_right (String.◌∷◌ c s) =
    let rest = trim_right s in if is_space (code c) && is_empty rest then "" else String.◌∷◌ c rest

-- `strings.TrimSpace`
unfoldable pub trim_space : String → String
unfolding trim_left trim_right
trim_space s = trim_right (trim_left s)

-- `strings.Contains`
unfoldable pub contains : String → String → Bool
contains String.[] sub = starts_with "" sub
contains (String.◌∷◌ c s) sub = starts_with (String.◌∷◌ c s) sub || contains s sub

-- `strings.TrimSuffix`
unfoldable pub trim_suffix : String → String → String
trim_suffix String.[] suffix = ""
trim_suffix (String.◌∷◌ c s) suffix =
    let rest = trim_suffix s suffix in if String.◌∷◌ c s ==ₛ suffix then "" else String.◌∷◌ c rest

abbrev pub drop_prefix : String → String → String
drop_prefix s String.[] = s
drop_prefix String.[] (String.◌∷◌ d p) = ""
drop_prefix (String.◌∷◌ c s) (String.◌∷◌ d p) = drop_prefix s p

-- `strings.Replace` of the first occurrence of a text that is not empty
unfoldable pub replace_first : String → String → String → String
replace_first String.[] old new = ""
replace_first (String.◌∷◌ c s) old new =
    let rest = replace_first s old new in
    if starts_with (String.◌∷◌ c s) old
    then new <> drop_prefix (String.◌∷◌ c s) old
    else String.◌∷◌ c rest

replaced_once : replace_first "abcbc" "bc" "x" ≡ "axbc"
unfolding replace_first
replaced_once = refl

-- `strings.Join`
unfoldable pub join : String → List String → String
join sep [] = ""
join sep (x ∷ []) = x
join sep (x ∷ y ∷ rest) = x <> sep <> join sep (y ∷ rest)

abbrev pub on_head : Char → List String → List String
on_head c [] = String.◌∷◌ c "" ∷ []
on_head c (line ∷ rest) = String.◌∷◌ c line ∷ rest

-- `strings.Split` at one character; the result is never empty.
unfoldable pub split_at : ℕ → String → List String
split_at sep String.[] = "" ∷ []
split_at sep (String.◌∷◌ c s) =
    let rest = split_at sep s in if code c == sep then "" ∷ rest else on_head c rest

-- `strings.Fields`
unfoldable pub fields : String → List String
fields String.[] = []
fields (String.◌∷◌ c String.[]) = if is_space (code c) then [] else String.◌∷◌ c "" ∷ []
fields (String.◌∷◌ c (String.◌∷◌ d s)) =
    let rest = fields (String.◌∷◌ d s) in
    if is_space (code c)
    then rest
    else if is_space (code d)
    then String.◌∷◌ c "" ∷ rest
    else on_head c rest

-- `fmt.Sscanf` with "%d" into a `uint64` that was 0, on a text without leading spaces: the digits
-- that it starts with, and still 0 where there are none or their number is too large
read_digits : ℕ → String → ℕ
read_digits acc String.[] = acc
read_digits acc (String.◌∷◌ c s) =
    let rest = read_digits (acc * 10 + (code c - 48)) s in
    if leb 48 (code c) && leb (code c) 57 then rest else acc

unfoldable pub scan_uint : String → ℕ
unfolding read_digits
scan_uint s = let n = read_digits 0 s in if ltb n (2 ^ 64) then n else 0

abbrev pub digit : ℕ → String
digit n =
    if n == 0
    then "0"
    else if n == 1
    then "1"
    else if n == 2
    then "2"
    else if n == 3
    then "3"
    else if n == 4
    then "4"
    else if n == 5
    then "5"
    else if n == 6
    then "6"
    else if n == 7
    then "7"
    else if n == 8
    then "8"
    else "9"

-- The fuel bounds the number of digits; `itoa` gives more than there are.
decimal : ℕ → ℕ → String
decimal zero n = digit n
decimal (suc fuel) n =
    let more = decimal fuel (n / 10) in if ltb n 10 then digit n else more <> digit (n % 10)

-- `strconv.Itoa` of a number that is not negative
unfoldable pub itoa : ℕ → String
unfolding decimal
itoa n = decimal n n

-- The number of bytes of a text in UTF-8
abbrev byte_width : ℕ → ℕ
byte_width c = if ltb c 0x80 then 1 else if ltb c 0x800 then 2 else if ltb c 0x10000 then 3 else 4

unfoldable pub byte_count : String → ℕ
byte_count String.[] = 0
byte_count (String.◌∷◌ c s) = byte_width (code c) + byte_count s

bytes_counted : byte_count "aé€" ≡ 6
unfolding byte_count
bytes_counted = refl

itoa_port : itoa 15432 ≡ "15432"
unfolding itoa
itoa_port = refl

trim_both : trim_space " \ta b \n" ≡ "a b"
unfolding trim_space
trim_both = refl

split_lines : split_at b'\n' "a\n\nb" ≡ "a" ∷ "" ∷ "b" ∷ []
unfolding split_at
split_lines = refl

trim_v6 : trim_suffix "fe80::1 (v6)" "(v6)" ≡ "fe80::1 "
unfolding trim_suffix
trim_v6 = refl

df_line :
    fields " /dev/sda1  100 20\t80 20% / " ≡ "/dev/sda1" ∷ "100" ∷ "20" ∷ "80" ∷ "20%" ∷ "/" ∷ []
unfolding fields
df_line = refl

free_bytes : scan_uint "5368709120x" ≡ 5368709120
unfolding scan_uint
free_bytes = refl
