-- ===== src/Base/Quote.antt =====
-- `strconv.Quote`, the `%q` of `fmt`, over texts of code points.
use Prim.Native.Nat.{ℕ, zero, suc, ◌/◌, ◌%◌}
use Prim.Native.Char.{code}
use Prim.Native.String.{String, ◌++◌ as ◌<>◌}
use mathlib.Core.Path.{◌≡◌, refl}
use mathlib.Core.Bool.{Bool, false, not, ◌&&◌, ◌||◌}
use mathlib.Core.List.{List, [], ◌∷◌}
use vmkit_agent.Base.Tests.{ltb, leb, ◌==◌, if◌then◌else◌}
use vmkit_agent.Base.Text.{digit}

abbrev hex_digit : ℕ → String
hex_digit n =
    if ltb n 10
    then digit n
    else if n == 10
    then "a"
    else if n == 11
    then "b"
    else if n == 12
    then "c"
    else if n == 13
    then "d"
    else if n == 14
    then "e"
    else "f"

-- So many hexadecimal digits
hex : ℕ → ℕ → String
hex zero n = ""
hex (suc places) n = hex places (n / 16) <> hex_digit (n % 16)

in_ranges : ℕ → List (ℕ × ℕ) → Bool
in_ranges c [] = false
in_ranges c ((from, to) ∷ ranges) = leb from c && leb c to || in_ranges c ranges

-- The characters that Go does not print as they are: spaces other than the ASCII one, control,
-- format and private-use characters, and blocks that are not assigned. A code point that is not
-- assigned within another block is taken as printable.
abbrev unprintable : List (ℕ × ℕ)
unprintable =
    (0x80, 0xa0)
    ∷ (0xad, 0xad)
    ∷ (0x600, 0x605)
    ∷ (0x61c, 0x61c)
    ∷ (0x6dd, 0x6dd)
    ∷ (0x70f, 0x70f)
    ∷ (0x890, 0x891)
    ∷ (0x8e2, 0x8e2)
    ∷ (0x1680, 0x1680)
    ∷ (0x180e, 0x180e)
    ∷ (0x2000, 0x200f)
    ∷ (0x2028, 0x202f)
    ∷ (0x205f, 0x206f)
    ∷ (0x3000, 0x3000)
    ∷ (0xe000, 0xf8ff)
    ∷ (0xfeff, 0xfeff)
    ∷ (0xfff0, 0xfffb)
    ∷ (0xfffe, 0xffff)
    ∷ (0x110bd, 0x110bd)
    ∷ (0x110cd, 0x110cd)
    ∷ (0x13430, 0x1343f)
    ∷ (0x1bca0, 0x1bca3)
    ∷ (0x1d173, 0x1d17a)
    ∷ (0xe0000, 0xe00ff)
    ∷ (0xe01f0, 0x10ffff)
    ∷ []

unfoldable escape : ℕ → String → String
unfolding hex in_ranges
escape c text =
    if c == 34
    then "\\\""
    else if c == 92
    then "\\\\"
    else if c == 7
    then "\\a"
    else if c == 8
    then "\\b"
    else if c == 12
    then "\\f"
    else if c == 10
    then "\\n"
    else if c == 13
    then "\\r"
    else if c == 9
    then "\\t"
    else if c == 11
    then "\\v"
    else if ltb c 32 || c == 127
    then "\\x" <> hex 2 c
    else if not (in_ranges c unprintable)
    then text
    else if ltb c 0x10000
    then "\\u" <> hex 4 c
    else "\\U" <> hex 8 c

escaped : String → String
escaped String.[] = ""
escaped (String.◌∷◌ c s) = escape (code c) (String.◌∷◌ c "") <> escaped s

-- `%q`, which is `strconv.Quote`
unfoldable pub quote : String → String
unfolding escaped escape hex in_ranges
quote s = "\"" <> escaped s <> "\""

key_quoted : quote "a\"b\\\n\u{200b}é" ≡ "\"a\\\"b\\\\\\n\\u200bé\""
unfolding quote
key_quoted = refl
