-- ===== src/Backup/Restore/Order.antt =====
-- When `Restore` drops the database.
use vmkit_agent.Base.{
  String, ◌<>◌, Bool, true, false, not, ◌||◌, List, [], ◌∷◌, ◌≡◌, refl, arith, is_empty, ◌==ₛ◌, inl,
  inr,
}
use vmkit_agent.Host.{
  Call, exec, sleep, open_file, close_file, read_opened, unix_time, Host, Trace, Reply, Outcome, ok,
  err, Outcome-cases,
}
use vmkit_agent.Host.Log.{made, guarded, guarded-none, answered}
use vmkit_agent.Stage.{begin}
use vmkit_agent.Stage.Safe.{
  Safe, Sound, always-Sound, bind-Safe, then-Safe, stage-Safe, ask-Safe, deferred-Safe,
  optional-Safe, if-Safe, Safe-calls,
}
use vmkit_agent.Backup.Tools.{
  get_postgres_container, get_storage_container, calculate_file_checksum, download_file,
  import_storage_data, fix_auth_permissions, is_instance_healthy,
}
use vmkit_agent.Backup.Restore.Steps.{
  RestoreConfig, dir_of, validate, download, verify_checksum, stop_instance, restore_database,
  feed_database, compose_call, sql_call, started, recreate, import_into, import_downloaded,
  fix_permissions, storage_note, restart_instance, check_health,
}
use vmkit_agent.Backup.Restore.{
  checks_sum, finish, restore_storage, restore_from, restore_flow, restore,
}

abbrev last_is : String → List String → Bool
last_is s [] = false
last_is s (x ∷ []) = x ==ₛ s
last_is s (x ∷ y ∷ ys) = last_is s (y ∷ ys)

-- The call drops the database.
abbrev pub drops : Call → Bool
drops (exec dir limit argv) = last_is "DROP DATABASE IF EXISTS postgres;" argv
drops _ = false

module _ (digest : String → String) (cfg : RestoreConfig) (host : Host) where
  abbrev pub is_expected : Call → Reply → Bool
  is_expected (read_opened path) r = ("sha256:" <> digest r.output) ==ₛ cfg.expected_checksum
  is_expected _ r = false

  -- No checksum is to be verified, or a file was read that has the expected one.
  abbrev pub verified : Trace → Bool
  verified w = not (checks_sum cfg) || answered host is_expected w

  abbrev Calm : Trace → Type 0
  Calm w = made drops w ≡ false

  abbrev Checked : Trace → Type 0
  Checked w = (made drops w ≡ false) × (verified w ≡ true)

  abbrev Kept : Trace → Type 0
  Kept w = (guarded drops verified w ≡ true) × (verified w ≡ true)

  abbrev Fine : Trace → Type 0
  Fine w = guarded drops verified w ≡ true

  Calm-Fine : (w : Trace) → Calm w → Fine w
  Calm-Fine w h = guarded-none drops verified w h

  Checked-Fine : (w : Trace) → Checked w → Fine w
  Checked-Fine w h = Calm-Fine w h.0

  Kept-Fine : (w : Trace) → Kept w → Fine w
  Kept-Fine w h = h.0

  validate-Calm : (dir : String) → Sound host Calm Calm Fine (validate dir)
  unfolding validate
  validate-Calm dir =
      always-Sound host Calm Calm Fine (validate dir) Calm-Fine (λ w h. ground arith)

  download-Calm : (url file : String) → Sound host Calm Calm Fine (download url file)
  unfolding download download_file
  download-Calm url file =
      always-Sound host Calm Calm Fine (download url file) Calm-Fine (λ w h. ground arith)

  verify_checksum-Checked :
      (file : String)
      → Sound host Calm Checked Fine (verify_checksum digest cfg.expected_checksum file)
  unfolding verify_checksum calculate_file_checksum
  verify_checksum-Checked file w h =
      let calm : Calm (close_file file ∷ read_opened file ∷ open_file file ∷ w) = ground arith in
      ground (
        arith,
        Calm-Fine (open_file file ∷ w),
        Calm-Fine (close_file file ∷ read_opened file ∷ open_file file ∷ w) calm,
      )

  stop_instance-Kept : (dir : String) → Sound host Checked Kept Fine (stop_instance dir)
  unfolding stop_instance
  stop_instance-Kept dir =
      always-Sound host Checked Kept Fine (stop_instance dir) Kept-Fine
        (λ w h. ground (arith, Checked-Fine w h))

  -- Once a checksum has been verified, no call spoils it.
  postgres-Kept : (dir : String) (w : Trace) → Kept w → Kept (get_postgres_container dir host w).1
  unfolding get_postgres_container
  postgres-Kept dir w h = ground arith

  started-Kept :
      (dir : String) (o : Outcome String) (w : Trace) → Kept w → Kept (started dir o host w).1
  started-Kept dir (ok id) w h = h
  started-Kept dir (err e) w h =
      let starts = compose_call dir ("start" ∷ "postgres" ∷ []) in
      let waited : Kept (sleep 5000 ∷ starts ∷ w) = ground arith in
      ground (arith, postgres-Kept dir (sleep 5000 ∷ starts ∷ w) waited)

  feed_database-Kept :
      (id file : String) (w : Trace) → Kept w → Kept (feed_database id file host w).1
  unfolding feed_database
  feed_database-Kept id file w h = ground arith

  recreate-Kept : (id file : String) (w : Trace) → Kept w → Kept (recreate id file host w).1
  unfolding recreate
  recreate-Kept id file w h =
      let drop = sql_call id "DROP DATABASE IF EXISTS postgres;" in
      let create = sql_call id "CREATE DATABASE postgres;" in
      let ready : Kept (create ∷ drop ∷ w) = ground arith in
      ground (arith, feed_database-Kept id file (create ∷ drop ∷ w) ready)

  restore_database-Kept :
      (dir file : String) → Sound host Kept Kept Fine (restore_database dir file)
  unfolding restore_database
  restore_database-Kept dir file =
      always-Sound host Kept Kept Fine (restore_database dir file) Kept-Fine (λ w h.
        let (o, w') = get_postgres_container dir host w in
        let (o', w'') = started dir o host w' in
        let begun = started-Kept dir o w' (postgres-Kept dir w h) in
        elim (Outcome-cases o') [
          | inl (id, fine) ↦ rw fine (recreate-Kept id file w'' begun)
          | inr (e, bad) ↦ rw bad begun
        ])

  fix_permissions-Kept : (id : String) → Sound host Kept Kept Fine (fix_permissions id)
  unfolding fix_permissions fix_auth_permissions
  fix_permissions-Kept id =
      always-Sound host Kept Kept Fine (fix_permissions id) Kept-Fine (λ w h. ground arith)

  download_file-Kept :
      (url file : String) (w : Trace) → Kept w → Kept (download_file url file host w).1
  unfolding download_file
  download_file-Kept url file w h = ground arith

  storage_container-Kept :
      (dir : String) (w : Trace) → Kept w → Kept (get_storage_container dir host w).1
  unfolding get_storage_container
  storage_container-Kept dir w h = ground arith

  import_into-Kept :
      (file : String) (o : Outcome String) (w : Trace) → Kept w → Kept (import_into file o host w).1
  unfolding import_storage_data
  import_into-Kept file (err e) w h = h
  import_into-Kept file (ok id) w h = ground arith

  import_downloaded-Kept :
      (dir file : String) (o : Outcome (Unit {0})) (w : Trace)
      → Kept w
      → Kept (import_downloaded dir file o host w).1
  import_downloaded-Kept dir file (err e) w h = h
  import_downloaded-Kept dir file (ok u) w h =
      let (o, w') = get_storage_container dir host w in
      import_into-Kept file o w' (storage_container-Kept dir w h)

  storage_note-Kept :
      (url dir file : String) → Sound host Kept Kept Fine (storage_note url dir file)
  unfolding storage_note
  storage_note-Kept url dir file =
      always-Sound host Kept Kept Fine (storage_note url dir file) Kept-Fine (λ w h.
        let (o, w') = download_file url file host w in
        import_downloaded-Kept dir file o w' (download_file-Kept url file w h))

  restart_instance-Kept : (dir : String) → Sound host Kept Kept Fine (restart_instance dir)
  unfolding restart_instance
  restart_instance-Kept dir =
      always-Sound host Kept Kept Fine (restart_instance dir) Kept-Fine (λ w h. ground arith)

  check_health-Kept : (dir : String) → Sound host Kept Kept Fine (check_health dir)
  unfolding check_health is_instance_healthy
  check_health-Kept dir =
      always-Sound host Kept Kept Fine (check_health dir) Kept-Fine (λ w h. ground arith)

  finish-Kept : (dir : String) → Safe host Kept Kept Fine (finish dir)
  unfolding finish
  finish-Kept dir =
      then-Safe (stage-Safe _ _ _ (restart_instance-Kept dir))
        (stage-Safe _ _ _ (check_health-Kept dir))

  restore_storage-Kept : (dir : String) → Safe host Kept Kept Fine (restore_storage cfg dir)
  unfolding restore_storage
  restore_storage-Kept dir = bind-Safe (ask-Safe unix_time (λ w h. h)) (λ now.
      deferred-Safe _ (λ w h. h) (λ w h. h)
        (then-Safe (stage-Safe _ _ _ (storage_note-Kept _ dir _)) (finish-Kept dir)))

  kept_of_checked : (w : Trace) → Checked w → Kept w
  kept_of_checked w h = (Checked-Fine w h, h.1)

  restore_from-Kept :
      (dir file : String) → Safe host Calm Kept Fine (restore_from digest cfg dir file)
  unfolding restore_from
  restore_from-Kept dir file = then-Safe (stage-Safe _ _ _ (download-Calm cfg.download_url file)) (
      then-Safe
        (optional-Safe {Q = Checked} (checks_sum cfg)
          (λ asked. stage-Safe _ _ _ (verify_checksum-Checked file)) (λ skipped w h. ground arith))
        (then-Safe
          (optional-Safe {Q = Kept} cfg.stop_instance
            (λ asked. stage-Safe _ _ _ (stop_instance-Kept dir)) (λ skipped. kept_of_checked))
          (bind-Safe (stage-Safe _ _ _ (restore_database-Kept dir file)) (λ id.
            then-Safe (stage-Safe _ _ _ (fix_permissions-Kept id)) (
              if-Safe (not (is_empty cfg.storage_download_url)) (λ given. restore_storage-Kept dir)
                (λ none_given. finish-Kept dir))))))

  restore_flow-Kept : Safe host Calm Kept Fine (restore_flow digest cfg)
  unfolding restore_flow
  restore_flow-Kept = then-Safe (stage-Safe _ _ _ (validate-Calm (dir_of cfg))) (
      bind-Safe (ask-Safe {Q = Calm} unix_time (λ w h. h))
        (λ now. deferred-Safe _ (λ w h. h) (λ w h. h) (restore_from-Kept (dir_of cfg) _)))

  -- Whatever the host answers: where a checksum is to be verified, `Restore` drops the database only
  -- after it has read a file whose checksum is the expected one.
  pub restore-verified_first : guarded drops verified (restore digest cfg host []).1 ≡ true
  unfolding restore
  restore-verified_first = Safe-calls restore_flow-Kept Kept-Fine (begin tt) [] refl
