-- ===== src/SelfUpgrade/Verified.antt =====
-- When the running binary is replaced.
use vmkit_agent.Base.{
  String, ◌<>◌, Bool, true, false, not, ◌&&◌, ◌||◌, [], ◌∷◌, ◌≡◌, refl, arith, ◌==◌, is_empty,
  Bool-cases, inl, inr,
}
use vmkit_agent.Host.{Call, rename, copy_body, Host, Trace, ok, succeeded, Outcome-cases}
use vmkit_agent.Host.Log.{guarded}
use vmkit_agent.SelfUpgrade.{
  UpgradeConfig, replace_all, is_url, matches, download, exec_path_of, cleaned, or_remove,
  replace_binary, upgrade, run,
}

abbrev pub replaces : Call → Bool
replaces (rename from to) = true
replaces _ = false

abbrev copies : Call → Bool
copies (copy_body dst) = true
copies _ = false

module _ (goarch : String) (digest : String → String) (cfg : UpgradeConfig) where
  -- A body that is not empty, with the digest that was wanted, has been copied into a file.
  abbrev pub verified : Host → Trace → Bool
  verified host [] = false
  verified host (c ∷ w) =
      (copies c
        && succeeded (host c w)
        && not ((host c w).number == 0)
        && matches goarch digest cfg.sha256 (host c w).output)
      || verified host w

  module _ (host : Host) (given : String) where
    abbrev verified_first : Trace → Bool
    verified_first = guarded replaces (verified host)

    download-verified :
        (url dst : String) (w : Trace)
        → (download goarch digest url dst cfg.sha256 host w).0 ≡ ok tt
        → verified host (download goarch digest url dst cfg.sha256 host w).1 ≡ true
    unfolding download
    download-verified url dst w h = ground arith

    download-verified_first :
        (url dst : String) (w : Trace)
        → verified_first w ≡ true
        → verified_first (download goarch digest url dst cfg.sha256 host w).1 ≡ true
    unfolding download
    download-verified_first url dst w h = ground arith

    replace_binary-verified_first :
        (url path : String) (w : Trace)
        → verified_first w ≡ true
        → verified_first (replace_binary goarch digest url path cfg.sha256 host w).1 ≡ true
    unfolding replace_binary or_remove cleaned
    replace_binary-verified_first url path w h =
        let before = download-verified_first url (path <> ".new") w h in
        let downloaded = download goarch digest url (path <> ".new") cfg.sha256 host w in
        elim (Outcome-cases downloaded.0) [
          | inl (_, fine) ↦
              let good = download-verified url (path <> ".new") w fine in
              ground (arith, before, good)
          | inr (e, bad) ↦ rw bad (ground (arith, before))
        ]

    exec_path_of-verified_first :
        (w : Trace)
        → verified_first w ≡ true
        → verified_first (exec_path_of goarch digest given host w).1 ≡ true
    unfolding exec_path_of
    exec_path_of-verified_first w h = ground arith

    upgrade-verified_first :
        (url : String) (w : Trace)
        → verified_first w ≡ true
        → verified_first (upgrade goarch digest cfg given url host w).1 ≡ true
    unfolding upgrade
    upgrade-verified_first url w h =
        let start = exec_path_of-verified_first w h in
        let at_path = exec_path_of goarch digest given host w in
        elim (Outcome-cases at_path.0) [
          | inl (path, found) ↦
              let after = replace_binary-verified_first url path at_path.1 start in
              let replaced = replace_binary goarch digest url path cfg.sha256 host at_path.1 in
              elim (Outcome-cases replaced.0) [
                | inl (_, fine) ↦ rw (found, fine) after
                | inr (e, bad) ↦ rw (found, bad) after
              ]
          | inr (e, lost) ↦ rw lost start
        ]

    -- Whatever the host answers: the running binary is replaced only when a body that is not empty
    -- has been downloaded in full, and, if the request names a digest, when it has that digest.
    pub run-verified_first :
        (current : String) → verified_first (run goarch digest cfg current given host []).1 ≡ true
    unfolding run
    run-verified_first current =
        let url = replace_all cfg.binary_url "{arch}" goarch in
        elim (Bool-cases (is_empty url)) [
          | inl empty ↦ rw empty refl
          | inr some_url ↦ elim (Bool-cases (is_url url)) [
            | inl good ↦ rw (some_url, good) (upgrade-verified_first url [] refl)
            | inr bad ↦ rw (some_url, bad) refl
          ]
        ]
