-- ===== src/Upgrade/Versions.antt =====
-- The versions that the agent knows, and which upgrade is allowed.
use vmkit_agent.Base.{
  zero, suc, String, ◌<>◌, Bool, true, false, not, Option, none, some, List, [], ◌∷◌, ◌==ₛ◌,
  contains, ℤ, pos, negsuc, split_at, join_path, ◌&&◌, if◌then◌else◌,
}
use vmkit_agent.Host.{Outcome, ok, err, M, ◌>>=◌, return, call, read_file, succeeded}
use vmkit_agent.Ufw.Sort.{str_lt}

-- The other fields, which the registry does not set, are left out.
pub record VersionInfo : Type 0 where
  pub postgres : String
  pub kong : String
  pub studio : String

abbrev pub Registry : Type 0
Registry = List (String × VersionInfo)

abbrev pub version_registry : Registry
version_registry =
    (
      "1.23.0",
      record {
        postgres = "supabase/postgres:15.1.0.117";
        kong = "kong:2.8.1";
        studio = "supabase/studio:20231123-64a766a";
      },
    )
    ∷ (
      "1.24.0",
      record {
        postgres = "supabase/postgres:15.1.1.118";
        kong = "kong:2.8.1";
        studio = "supabase/studio:20240101-a1b2c3d";
      },
    )
    ∷ []

abbrev pub find : String → Registry → Option VersionInfo
find version [] = none
find version ((v, info) ∷ rest) =
    let more = find version rest in if v ==ₛ version then some info else more

-- The comparison is one of texts, not of numbers.
unfoldable pub compare_versions : String → String → ℤ
compare_versions v₁ v₂ = if v₁ ==ₛ v₂ then pos 0 else if str_lt v₂ v₁ then pos 1 else negsuc 0

abbrev pub is_positive : ℤ → Bool
is_positive (pos zero) = false
is_positive (pos (suc n)) = true
is_positive (negsuc n) = false

abbrev known : Option VersionInfo → Bool
known none = false
known (some info) = true

unfoldable pub validate_version_upgrade : String → String → Outcome (Unit {0})
unfolding compare_versions
validate_version_upgrade current target =
    if not (known (find current version_registry))
    then err ("unknown current version: " <> current)
    else if not (known (find target version_registry))
    then err ("unknown target version: " <> target)
    else if not (is_positive (compare_versions target current))
    then err (
        "downgrade not allowed: " <> current <> " -> " <> target
        <> " (use --allow-downgrade flag if intentional)")
    else ok tt

-- `GetCurrentVersion`; the order is that in which Go visits the registry.
abbrev version_in : String → Registry → Option String
version_in line [] = none
version_in line ((v, info) ∷ rest) =
    let more = version_in line rest in if contains line info.postgres then some v else more

abbrev first_version : Registry → List String → Option String
first_version registry [] = none
first_version registry (line ∷ lines) =
    let more = first_version registry lines in
    if contains line "image:" && contains line "supabase/postgres"
    then elim (version_in line registry) [ some v ↦ some v | none ↦ more ]
    else more

abbrev version_reply : Option String → String × Option String
version_reply (some v) = (v, none)
version_reply none = ("unknown", some "could not determine version from docker-compose.yml")

unfoldable pub get_current_version :
    (Registry → Registry) → String → String → M (String × Option String)
get_current_version order subdomain base_dir = do
  r ← call (read_file (join_path (join_path base_dir subdomain) "docker-compose.yml"))
  let found = version_reply (first_version (order version_registry) (split_at b'\n' r.output))
  return (if succeeded r then found else ("", r.error))
