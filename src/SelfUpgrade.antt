-- ===== src/SelfUpgrade.antt =====
-- internal/selfupgrade/selfupgrade.go: the program replaces its own file by a newer one.
pub mod Verified
pub mod Tidy
use Prim.Native.Char.{Char, code}
use Prim.Native.String.{len}
use vmkit_agent.Base.{
  ℕ, zero, suc, ◌+◌, ◌-◌, String, ◌<>◌, Bool, true, false, not, ◌&&◌, ◌||◌, List, [], ◌∷◌, ◌==◌,
  ◌==ₛ◌, leb, is_empty, starts_with, itoa, quote, if◌then◌else◌,
}
use vmkit_agent.Host.{
  Call, remove, rename, chmod, executable, eval_symlinks, http_get, create_file, copy_body,
  close_file, start_later, Reply, Outcome, ok, err, M, ◌>>=◌, ◌>>◌, return, fail, ensure, call,
  require, best_effort, attempt, succeeded, message,
}

pub record UpgradeConfig : Type 0 where
  pub binary_url : String
  pub sha256 : String
  pub version : String
  pub service : String

pub record UpgradeResult : Type 0 where
  pub success : Bool
  pub old_version : String
  pub new_version : String
  pub binary_url : String
  pub note : String
  pub error : String

-- `strings.ReplaceAll` for a text that is not empty; so many characters are still to be skipped.
replace_from : String → String → ℕ → String → String
replace_from old new skip String.[] = ""
replace_from old new zero (String.◌∷◌ c s) =
    let replaced = replace_from old new (len old - 1) s in
    let rest = replace_from old new zero s in
    if starts_with (String.◌∷◌ c s) old then new <> replaced else String.◌∷◌ c rest
replace_from old new (suc skip) (String.◌∷◌ c s) = replace_from old new skip s

unfoldable pub replace_all : String → String → String → String
unfolding replace_from
replace_all s old new = replace_from old new zero s

-- `strings.EqualFold` on texts of which one is ASCII without k and s, as a hexadecimal digest is
abbrev lower : ℕ → ℕ
lower c = if leb 65 c && leb c 90 then c + 32 else c

unfoldable pub equal_fold : String → String → Bool
equal_fold String.[] String.[] = true
equal_fold (String.◌∷◌ c s) (String.◌∷◌ d t) = (lower (code c) == lower (code d)) && equal_fold s t
equal_fold _ _ = false

abbrev pub failed_with : UpgradeResult → String → UpgradeResult
failed_with res msg = record res { success = false; error = msg }

abbrev pub is_url : String → Bool
is_url url = starts_with url "http://" || starts_with url "https://"

-- The architecture of the running binary, and SHA-256 as a hexadecimal text
module _ (goarch : String) (digest : String → String) where
  -- The digest is checked only if one is wanted.
  abbrev pub matches : String → String → Bool
  matches want body = is_empty want || equal_fold (digest body) want

  unfoldable pub download : String → String → String → M (Unit {0})
  download url dst want = do
    resp ← require (http_get url) (message ("download " <> url <> ": "))
    ensure (resp.number == 200) ("download " <> url <> ": HTTP " <> itoa resp.number)
    require (create_file dst 0o755) (message ("create temp file " <> dst <> ": "))
    copied ← call (copy_body dst)
    closed ← call (close_file dst)
    ensure (succeeded copied) (message "write binary: " copied)
    ensure (succeeded closed) (message "close temp file: " closed)
    ensure (not (copied.number == 0)) "downloaded binary is empty"
    ensure (matches want copied.output)
        ("sha256 mismatch: want " <> want <> ", got " <> digest copied.output)

  -- The path of the running binary
  unfoldable pub exec_path_of : String → M String
  exec_path_of given =
      if is_empty given
      then (do
        p ← require executable (message "cannot resolve running binary path: ")
        r ← call (eval_symlinks p.output)
        return (if succeeded r then r.output else p.output))
      else return given

  unfoldable pub cleaned : String → Outcome (Unit {0}) → M (Unit {0})
  cleaned tmp (ok _) = return tt
  cleaned tmp (err e) = do best_effort (remove tmp); fail e

  -- A step of the replacement; the temporary file is removed if it fails.
  unfoldable pub or_remove : String → M (Unit {0}) → M (Unit {0})
  or_remove tmp m = do r ← attempt m; cleaned tmp r

  unfoldable pub replace_binary : String → String → String → M (Unit {0})
  replace_binary url path want = do
    let tmp = path <> ".new"
    or_remove tmp (download url tmp want)
    or_remove tmp (do require (chmod tmp 0o755) (message "chmod new binary: "); return tt)
    or_remove tmp (do require (rename tmp path) (message "replace running binary: "); return tt)

  abbrev service_of : UpgradeConfig → String
  service_of cfg = if is_empty cfg.service then "vmkit-agent" else cfg.service

  abbrev restart : UpgradeConfig → Call
  restart cfg = start_later 3000 ("systemctl" ∷ "restart" ∷ service_of cfg ∷ [])

  unfoldable pub upgrade : UpgradeConfig → String → String → M String
  upgrade cfg given url = do
    path ← exec_path_of given
    replace_binary url path cfg.sha256
    best_effort (restart cfg)
    return path

  unfoldable pub upgraded : UpgradeConfig → UpgradeResult → Outcome String → UpgradeResult
  upgraded cfg res (err e) = failed_with res e
  upgraded cfg res (ok path) = record res {
    success = true;
    new_version = if is_empty cfg.version then "latest" else cfg.version;
    note = "binary replaced at " <> path <> "; restarting " <> service_of cfg;
  }

  -- `Run`, for the current version and the path of the options; an empty path asks the system.
  unfoldable pub run : UpgradeConfig → String → String → M UpgradeResult
  run cfg current given =
      let url = replace_all cfg.binary_url "{arch}" goarch in
      let res : UpgradeResult = record {
        success = false;
        old_version = current;
        new_version = "";
        binary_url = url;
        note = "";
        error = "";
      } in
      let no_url : M UpgradeResult = return (failed_with res "binary_url is required") in
      let bad_url : M UpgradeResult =
        return (failed_with res ("binary_url must be an http(s) URL: " <> quote url)) in
      let tried : M UpgradeResult = (do
        r ← attempt (upgrade cfg given url)
        return (upgraded cfg res r)) in
      if is_empty url then no_url else if not (is_url url) then bad_url else tried
