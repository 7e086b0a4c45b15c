-- ===== src/Base/Paths.antt =====
-- `path/filepath`'s `Clean` and `Join` of two elements, as on Linux.
use mathlib.Core.Path.{◌≡◌, refl}
use mathlib.Core.Bool.{Bool, true, false, ◌&&◌, ◌||◌}
use mathlib.Core.List.{List, [], ◌∷◌}
use Prim.Native.String.{String, ◌++◌ as ◌<>◌}
use text.Mathlib.Text.{starts_with, ◌==◌ as ◌==ₛ◌}
use vmkit_agent.Base.Tests.{if◌then◌else◌}
use vmkit_agent.Base.Text.{is_empty, split_at, join}

-- A ".." takes the last element away, but not the root and not another "..".
abbrev back : Bool → List String → List String
back true [] = []
back false [] = ".." ∷ []
back rooted (top ∷ below) = if top ==ₛ ".." then ".." ∷ top ∷ below else below

-- the elements read, the last one first
elements : Bool → List String → List String → List String
elements rooted done [] = done
elements rooted done (e ∷ es) =
    elements rooted
      (if is_empty e || e ==ₛ "." then done else if e ==ₛ ".." then back rooted done else e ∷ done)
      es

reversed : List String → List String → List String
reversed acc [] = acc
reversed acc (e ∷ es) = reversed (e ∷ acc) es

clean_text : Bool → String → String
clean_text true text = "/" <> text
clean_text false text = if is_empty text then "." else text

unfoldable pub clean : String → String
unfolding elements reversed clean_text split_at join
clean path =
    let rooted = starts_with path "/" in
    clean_text rooted (join "/" (reversed [] (elements rooted [] (split_at b'/' path))))

unfoldable pub join_path : String → String → String
join_path a b =
    let both = is_empty a && is_empty b in
    if both then "" else if is_empty a then clean b else clean (a <> "/" <> b)

plain : join_path "/opt/supabase" "x1" ≡ "/opt/supabase/x1"
unfolding join_path clean
plain = refl

climbs : join_path "/opt/supabase/" "a/.././../x//y" ≡ "/opt/x/y"
unfolding join_path clean
climbs = refl

relative : join_path "a" "../../.." ≡ "../.."
unfolding join_path clean
relative = refl

no_name : join_path "/opt/supabase" "" ≡ "/opt/supabase"
unfolding join_path clean
no_name = refl
