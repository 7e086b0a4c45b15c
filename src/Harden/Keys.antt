-- ===== src/Harden/Keys.antt =====
-- What `buildAuthorizedKeys` writes, and when it refuses.
use text.Mathlib.TextLemmas.{append_assoc, append-nil}
use vmkit_agent.Base.{
  String, ◌<>◌, Option, none, some, List, [], ◌∷◌, ◌≡◌, refl, sym, ap, ◌∙◌, starts_with, is_empty,
  trim_space, quote, if◌then◌else◌, Bool-cases, inl, inr,
}
use vmkit_agent.Host.{Outcome, ok, err}
use vmkit_agent.Harden.System.{extra_keys, build_authorized_keys}

-- The extra keys without the white space round them, and without those that are blank.
abbrev pub kept_keys : List String → List String
kept_keys [] = []
kept_keys (extra ∷ extras) =
    if is_empty (trim_space extra) then kept_keys extras else trim_space extra ∷ kept_keys extras

-- The first key that is not an SSH public key.
abbrev pub first_bad : List String → Option String
first_bad [] = none
first_bad (key ∷ keys) = if starts_with key "ssh-" then first_bad keys else some key

abbrev pub lines : List String → String
lines [] = ""
lines (key ∷ keys) = key <> "\n" <> lines keys

-- The file, or the refusal of the first bad key.
abbrev pub keys_file : Option String → List String → Outcome String
keys_file none keys = ok (lines keys)
keys_file (some bad) keys =
    err ("invalid extra SSH public key (must start with 'ssh-'): " <> quote bad)

abbrev prefixed : String → Outcome String → Outcome String
prefixed written (ok text) = ok (written <> text)
prefixed written (err e) = err e

prefixed-cons :
    (bad : Option String) (written key : String) (keys : List String)
    → prefixed (written <> key <> "\n") (keys_file bad keys)
      ≡ prefixed written (keys_file bad (key ∷ keys))
prefixed-cons none written key keys = ap ok (
    append_assoc written (key <> "\n") (lines keys)
    ∙ ap (λ rest. written <> rest) (append_assoc key "\n" (lines keys)))
prefixed-cons (some bad) written key keys = refl

extra_keys-prefixed :
    (extras : List String) (written : String)
    → extra_keys written extras
      ≡ prefixed written (keys_file (first_bad (kept_keys extras)) (kept_keys extras))
unfolding extra_keys
extra_keys-prefixed [] written = ap ok (sym (append-nil written))
extra_keys-prefixed (extra ∷ extras) written = elim (Bool-cases (is_empty (trim_space extra))) [
  | inl blank ↦ rw blank (extra_keys-prefixed extras written)
  | inr text ↦ rw text (elim (Bool-cases (starts_with (trim_space extra) "ssh-")) [
    | inl good ↦ rw good (
        extra_keys-prefixed extras (written <> trim_space extra <> "\n")
        ∙ prefixed-cons (first_bad (kept_keys extras)) written _ (kept_keys extras))
    | inr bad ↦ rw bad
  ])
]

-- The file holds the primary key and then each extra key that is not blank, without the white
-- space round it, one to a line and in order; if one of those does not start with "ssh-", the
-- first such key is refused instead.
pub build_authorized_keys-eq-keys_file :
    (primary : String) (extras : List String)
    → build_authorized_keys primary extras ≡ elim (first_bad (kept_keys extras)) [
      | none ↦ ok (lines (primary ∷ kept_keys extras))
      | some bad ↦ err ("invalid extra SSH public key (must start with 'ssh-'): " <> quote bad)
    ]
unfolding build_authorized_keys
build_authorized_keys-eq-keys_file primary extras =
    extra_keys-prefixed extras (primary <> "\n") ∙ first (first_bad (kept_keys extras))
  where
    first :
        (bad : Option String)
        → prefixed (primary <> "\n") (keys_file bad (kept_keys extras)) ≡ elim bad [
          | none ↦ ok (lines (primary ∷ kept_keys extras))
          | some bad ↦ err ("invalid extra SSH public key (must start with 'ssh-'): " <> quote bad)
        ]
    first none = ap ok (append_assoc primary "\n" (lines (kept_keys extras)))
    first (some bad) = refl
