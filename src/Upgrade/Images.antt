-- ===== src/Upgrade/Images.antt =====
-- The images in a compose file: `replaceImageVersion`, on lines.
use Prim.Native.Char.{code}
use vmkit_agent.Base.{
  String, ◌<>◌, Bool, true, false, not, ◌&&◌, ◌||◌, List, [], ◌∷◌, ◌≡◌, refl, ◌==◌, contains,
  starts_with, trim_space, split_at, join, if◌then◌else◌,
}

abbrev is_blank : String → Bool
is_blank String.[] = true
is_blank (String.◌∷◌ c s) = (code c == 32) && is_blank s

-- The spaces that a line starts with; "" if it has nothing else
unfoldable pub get_indent : String → String
get_indent String.[] = ""
get_indent (String.◌∷◌ c s) =
    let rest = get_indent s in
    if code c == 32 then (if is_blank s then "" else String.◌∷◌ c rest) else ""

abbrev pub opens : String → String → Bool
opens service line =
    contains line (service <> ":") && starts_with (trim_space line) (service <> ":")

-- A line at the indent of a service, which is no item of a list
abbrev pub leaves : String → Bool
leaves line =
    starts_with line "  "
    && contains line ":"
    && not (starts_with (trim_space line) "-")
    && not (starts_with line "    ")

abbrev pub has_image : String → Bool
has_image line = contains line "image:"

-- The loop: the flag says that the lines are those of the service.
unfoldable pub replace_lines : String → String → Bool → List String → List String
replace_lines service image inside [] = []
replace_lines service image inside (line ∷ lines) =
    let found = inside && has_image line in
    let still = inside && not found && not (leaves line) in
    let opened = opens service line in
    (if not opened && found then get_indent line <> "image: " <> image else line)
    ∷ replace_lines service image (opened || still) lines

unfoldable pub replace_image_version : String → String → String → String
replace_image_version content service image =
    join "\n" (replace_lines service image false (split_at b'\n' content))

db_image :
    replace_image_version "services:\n  db:\n    image: a\n  kong:\n    image: b\n" "kong" "c"
    ≡ "services:\n  db:\n    image: a\n  kong:\n    image: c\n"
unfolding replace_image_version replace_lines get_indent contains trim_space split_at join
db_image = refl
