-- ===== src/SelfUpgrade/Tidy.antt =====
-- When the service is restarted, and what a failure leaves behind.
use vmkit_agent.Base.{
  String, ◌<>◌, Bool, true, false, not, ◌&&◌, [], ◌∷◌, ◌≡◌, refl, arith, is_empty, ◌==ₛ◌, ◌||◌,
  eq_iff, if◌then◌else◌, Bool-cases, inl, inr,
}
use vmkit_agent.Host.{
  Call, remove, rename, executable, eval_symlinks, succeeded, create_file, start_later, Host, Trace,
  Outcome, ok, err, Outcome-cases,
}
use vmkit_agent.Host.Log.{made, done, guarded, guarded-none}
use vmkit_agent.SelfUpgrade.{
  UpgradeConfig, UpgradeResult, replace_all, is_url, download, exec_path_of, cleaned, or_remove,
  replace_binary, upgrade, upgraded, run,
}

abbrev pub restarts : Call → Bool
restarts (start_later ms argv) = true
restarts _ = false

abbrev pub creates : Call → Bool
creates (create_file path mode) = true
creates _ = false

-- The path of the running binary: the one that the options give, or else what the system answers,
-- with its symbolic links followed where that succeeds.
abbrev pub running_path : Host → String → String
running_path host given =
    let p = host executable [] in
    let r = host (eval_symlinks p.output) (executable ∷ []) in
    if is_empty given then (if succeeded r then r.output else p.output) else given

-- The call moves the new binary over the running one.
abbrev pub swaps : String → Call → Bool
swaps path (rename from to) = from ==ₛ (path <> ".new") && to ==ₛ path
swaps path _ = false

-- No file has been created, or the latest call asks for the removal of the new binary.
abbrev pub tidy : String → Trace → Bool
tidy path [] = true
tidy path (remove p ∷ w) = p ==ₛ (path <> ".new") || not (made creates w)
tidy path (c ∷ w) = not (made creates (c ∷ w))

module _ (goarch : String) (digest : String → String) (cfg : UpgradeConfig) where
  module _ (host : Host) (given : String) where
    abbrev replaced_first : String → Trace → Bool
    replaced_first here = guarded restarts (done host (swaps here))

    exec_path_of-running_path :
        (path : String)
        → (exec_path_of goarch digest given host []).0 ≡ ok path
        → path ≡ running_path host given
    unfolding exec_path_of
    exec_path_of-running_path path h = ground arith

    abbrev still : Trace → Bool
    still w = not (made restarts w) && not (made creates w)

    exec_path_of-still :
        (w : Trace) → still w ≡ true → still (exec_path_of goarch digest given host w).1 ≡ true
    unfolding exec_path_of
    exec_path_of-still w h = ground arith

    replace_binary-quiet :
        (url path : String) (w : Trace)
        → made restarts w ≡ false
        → made restarts (replace_binary goarch digest url path cfg.sha256 host w).1 ≡ false
    unfolding replace_binary or_remove cleaned download
    replace_binary-quiet url path w h = ground arith

    replace_binary-replaces :
        (url path : String) (w : Trace)
        → (replace_binary goarch digest url path cfg.sha256 host w).0 ≡ ok tt
        → done host (swaps path) (replace_binary goarch digest url path cfg.sha256 host w).1 ≡ true
    unfolding replace_binary or_remove cleaned
    replace_binary-replaces url path w h =
        elim (Outcome-cases (download goarch digest url (path <> ".new") cfg.sha256 host w).0) [
          | inl (_, fine) ↦
              ground (arith, eq_iff path path, eq_iff (path <> ".new") (path <> ".new"))
          | inr (e, bad) ↦ ground arith
        ]

    replace_binary-tidy :
        (url path e : String) (w : Trace)
        → (replace_binary goarch digest url path cfg.sha256 host w).0 ≡ err e
        → tidy path (replace_binary goarch digest url path cfg.sha256 host w).1 ≡ true
    unfolding replace_binary or_remove cleaned
    replace_binary-tidy url path e w h =
        let same = eq_iff (path <> ".new") (path <> ".new") in
        elim (Outcome-cases (download goarch digest url (path <> ".new") cfg.sha256 host w).0) [
          | inl (_, fine) ↦ ground (arith, eq_iff (path <> ".new") (path <> ".new"))
          | inr (e', bad) ↦ rw bad (ground arith)
        ]

    still-tidy : (here : String) (w : Trace) → still w ≡ true → tidy here w ≡ true
    still-tidy here [] h = refl
    still-tidy here (remove p ∷ w) h = ground arith
    still-tidy here (c ∷ w) h = ground arith

    upgrade-ends :
        (url here : String)
        → ((path : String) → (exec_path_of goarch digest given host []).0 ≡ ok path → path ≡ here)
        → let u = upgrade goarch digest cfg given url host [] in
          (replaced_first here u.1 ≡ true) × ((e : String) → u.0 ≡ err e → tidy here u.1 ≡ true)
    unfolding upgrade
    upgrade-ends url here is_here =
        let at_path = exec_path_of goarch digest given host [] in
        let calm = exec_path_of-still [] refl in
        elim (Outcome-cases at_path.0) [
          | inl (path, found) ↦
              let at_here : path ≡ here = is_here path found in
              let replaced = replace_binary goarch digest url path cfg.sha256 host at_path.1 in
              let quiet = replace_binary-quiet url path at_path.1 (ground arith) in
              let none = guarded-none restarts (done host (swaps path)) replaced.1 quiet in
              elim (Outcome-cases replaced.0) [
                | inl (_, fine) ↦
                    let swapped = replace_binary-replaces url path at_path.1 fine in
                    rw (← at_here, found, fine) (ground arith, λ e h. ground arith)
                | inr (e, bad) ↦
                    rw (← at_here, found, bad)
                      (none, λ e' h. replace_binary-tidy url path e at_path.1 bad)
              ]
          | inr (e, lost) ↦ rw lost (
            guarded-none restarts (done host (swaps here)) at_path.1 (ground arith),
            λ e' h. still-tidy here at_path.1 calm,
          )
        ]

    upgraded-failure :
        (res r : UpgradeResult) (o : Outcome String)
        → upgraded goarch digest cfg res o ≡ r
        → r.success ≡ false
        → (e : String) × (o ≡ err e)
    unfolding upgraded
    upgraded-failure res r (ok path) h s = ground arith
    upgraded-failure res r (err e) h s = (e, refl)

    ok-injective : {A : Type 0} {a b : A} → ok a ≡ ok b → a ≡ b
    ok-injective e = cc

    -- Whatever the host answers: the restart of the service is set going only after path.new has
    -- been renamed to path with success, where path is the running binary's path that the options
    -- give, or else the system's answer with its symbolic links followed where possible.
    pub run-replaced_first :
        (current : String)
        → replaced_first (running_path host given) (run goarch digest cfg current given host []).1
          ≡ true
    unfolding run
    run-replaced_first current =
        let url = replace_all cfg.binary_url "{arch}" goarch in
        elim (Bool-cases (is_empty url)) [
          | inl empty ↦ rw empty refl
          | inr some_url ↦ elim (Bool-cases (is_url url)) [
            | inl good ↦ rw (some_url, good) (upgrade-ends url _ exec_path_of-running_path).0
            | inr bad ↦ rw (some_url, bad) refl
          ]
        ]

    -- Whatever the host answers: when `Run` reports a failure, it has created no file, or its
    -- latest call asks for the removal of path.new, where path is the running binary's path.
    pub run-tidy :
        (current : String) {r : UpgradeResult}
        → (run goarch digest cfg current given host []).0 ≡ ok r
        → r.success ≡ false
        → tidy (running_path host given) (run goarch digest cfg current given host []).1 ≡ true
    unfolding run
    run-tidy current {r} h s =
        let url = replace_all cfg.binary_url "{arch}" goarch in
        elim (Bool-cases (is_empty url)) [
          | inl empty ↦ rw empty refl
          | inr some_url ↦ elim (Bool-cases (is_url url)) [
            | inl good ↦
                let u = upgrade goarch digest cfg given url host [] in
                let (e, failed) =
                  upgraded-failure _ r u.0 (ok-injective (rw (some_url, good) at h)) s in
                rw (some_url, good) ((upgrade-ends url _ exec_path_of-running_path).1 e failed)
            | inr bad ↦ rw (some_url, bad) refl
          ]
        ]
