-- ===== src/Backup/Verify/Keeps.antt =====
-- What was answered before the checks that follow the checksum's is kept by them.
use vmkit_agent.Base.{
  String, ◌<>◌, Bool, true, false, ◌||◌, not, [], ◌∷◌, ◌≡◌, arith, is_empty, itoa, join_path, inl,
  inr, if◌then◌else◌,
}
use vmkit_agent.Host.{
  Call, stdout_pipe, start, wait, message, error_text, must_exist, unix_time, Host, Trace, Reply,
  Outcome, M, succeeded, Outcome-cases, ◌>>=◌, ◌>>◌, call, require, ensure, wrapped, finally,
  after-keeps,
}
use vmkit_agent.Host.Log.{answered}
use vmkit_agent.Backup.Tools.{compose_file, get_postgres_container}
use vmkit_agent.Backup.Restore.Steps.{with_output, sql_call, has_errors}
use vmkit_agent.Backup.Verify.Checks.{
  verify_gzip_integrity, verify_sql_header, perform_deep_verification, test_restore,
  run_sanity_checks,
}
use vmkit_agent.Backup.Verify.{
  VerifyBackupConfig, VerifyBackupResult, Judgement, good, bad, Rest, judged, run_check, skip_check,
  finish, deep_check, header_check, gzip_check,
}

module _ (host : Host) (p : Call → Reply → Bool) where
  -- The program keeps the answer that was given before it.
  pub record Keeps {A : Type 0} (m : M A) : Type 0 where
    pub keeps : (w : Trace) → answered host p w ≡ true → answered host p (m host w).1 ≡ true

  bind-Keeps :
      {A B : Type 0} (m : M A) (f : A → M B) → Keeps m → ((a : A) → Keeps (f a)) → Keeps (m >>= f)
  bind-Keeps m f km kf = record {
    keeps = λ w h.
        after-keeps (λ w'. answered host p w' ≡ true) host f (m host w).0 (m host w).1
          (km.keeps w h) (λ a. (kf a).keeps (m host w).1 (km.keeps w h));
  }

  then-Keeps : {A B : Type 0} (m : M A) (k : M B) → Keeps m → Keeps k → Keeps (m >> k)
  then-Keeps m k km kk = bind-Keeps m (λ _. k) km (λ _. kk)

  call-Keeps : (c : Call) → Keeps (call c)
  call-Keeps c = record { keeps = λ w h. ground arith }

  require-Keeps : (c : Call) (e : Reply → String) → Keeps (require c e)
  require-Keeps c e = record { keeps = λ w h. ground arith }

  ensure-Keeps : (b : Bool) (e : String) → Keeps (ensure b e)
  ensure-Keeps true e = record { keeps = λ w h. h }
  ensure-Keeps false e = record { keeps = λ w h. h }

  wrapped-Keeps : {A : Type 0} (e : String) (m : M A) → Keeps m → Keeps (wrapped e m)
  wrapped-Keeps e m km = record {
    keeps = λ w h. elim (Outcome-cases (m host w).0) [
      | inl (a, fine) ↦ rw fine (km.keeps w h)
      | inr (e', lost) ↦ rw lost (km.keeps w h)
    ];
  }

  finally-Keeps : {A : Type 0} (c : Call) (m : M A) → Keeps m → Keeps (finally c m)
  finally-Keeps c m km = record { keeps = λ w h. ground (arith, km.keeps w h) }

  must_exist-Keeps : (path e : String) → Keeps (must_exist path e)
  must_exist-Keeps path e = record { keeps = λ w h. ground arith }

  gzip-Keeps : (file : String) → Keeps (verify_gzip_integrity file)
  unfolding verify_gzip_integrity
  gzip-Keeps file = record { keeps = λ w h. ground arith }

  header-Keeps : (file : String) → Keeps (verify_sql_header file)
  unfolding verify_sql_header
  header-Keeps file = record { keeps = λ w h. ground arith }

  sanity-Keeps : (id db : String) → Keeps (run_sanity_checks id db)
  unfolding run_sanity_checks
  sanity-Keeps id db = record { keeps = λ w h. ground arith }

  restore-Keeps : (id db file : String) → Keeps (test_restore id db file)
  unfolding test_restore
  restore-Keeps id db file =
      let unzip = "gunzip" ∷ "-c" ∷ file ∷ [] in
      let psql =
        "docker" ∷ "exec" ∷ "-i" ∷ id ∷ "psql" ∷ "-U" ∷ "postgres" ∷ "-d" ∷ db ∷ "-q" ∷ [] in
      then-Keeps _ _ (require-Keeps (stdout_pipe unzip) (message "failed to create gunzip pipe: "))
        (then-Keeps _ _ (require-Keeps (start unzip) (message "failed to start gunzip: ")) (
          then-Keeps _ _ (require-Keeps (start psql) (message "failed to start psql: ")) (
            then-Keeps _ _ (require-Keeps (wait unzip) (message "gunzip failed: ")) (
              bind-Keeps _ _ (call-Keeps (wait psql)) λ r.
                then-Keeps _ _
                  (ensure-Keeps (succeeded r || not (has_errors r.errors))
                    ("restore to test database failed: " <> error_text r <> " - " <> r.errors))
                  (wrapped-Keeps "sanity checks failed: " _ (sanity-Keeps id db))))))

  container-Keeps : (dir : String) → Keeps (get_postgres_container dir)
  unfolding get_postgres_container
  container-Keeps dir = record { keeps = λ w h. ground arith }

  deep-Keeps :
      (file subdomain base_dir : String) → Keeps (perform_deep_verification file subdomain base_dir)
  unfolding perform_deep_verification
  deep-Keeps file subdomain base_dir =
      let dir = join_path (if is_empty base_dir then "/opt/supabase" else base_dir) subdomain in
      then-Keeps _ _
        (must_exist-Keeps (compose_file dir)
          ("instance not found at " <> dir <> " (required for deep verification)"))
        (bind-Keeps _ _ (wrapped-Keeps "failed to get postgres container: " _ (container-Keeps dir))
          λ id. bind-Keeps _ _ (call-Keeps unix_time) λ time.
            let db = "verify_test_" <> itoa time.number in
            then-Keeps _ _
              (require-Keeps (sql_call id ("CREATE DATABASE " <> db <> ";"))
                (with_output "failed to create test database: "))
              (finally-Keeps (sql_call id ("DROP DATABASE IF EXISTS " <> db <> ";")) _
                (restore-Keeps id db file)))

  -- Whatever the rest of a verification begins with, it keeps the answer.
  abbrev pub RestKeeps : Rest → Type 0
  RestKeeps f = (r : VerifyBackupResult) → Keeps (f r)

  judged-Keeps :
      (n : String) (next : Rest) (r : VerifyBackupResult) (j : Judgement)
      → RestKeeps next
      → Keeps (judged n next r j)
  unfolding judged
  judged-Keeps n next r (good note) rest = rest _
  judged-Keeps n next r (bad note message overall) rest = record { keeps = λ w h. h }

  run_check-Keeps :
      {A : Type 0} (n : String) (weigh : Outcome A → Judgement) (m : M A) (next : Rest)
      → Keeps m
      → RestKeeps next
      → RestKeeps (run_check n weigh m next)
  unfolding run_check
  run_check-Keeps n weigh m next km rest r = record {
    keeps =
        λ w h. (judged-Keeps n next r (weigh (m host w).0) rest).keeps (m host w).1 (km.keeps w h);
  }

  skip_check-Keeps :
      (n message : String) (next : Rest) → RestKeeps next → RestKeeps (skip_check n message next)
  unfolding skip_check
  skip_check-Keeps n message next rest r = rest _

  finish-Keeps : RestKeeps finish
  unfolding finish
  finish-Keeps r = record { keeps = λ w h. h }

  either-Keeps :
      (b : Bool) (f g : Rest) → RestKeeps f → RestKeeps g → RestKeeps (if b then f else g)
  either-Keeps true f g kf kg = kf
  either-Keeps false f g kf kg = kg

  pub gzip_check-Keeps :
      (cfg : VerifyBackupConfig) (file : String) → RestKeeps (gzip_check cfg file)
  unfolding gzip_check header_check deep_check
  gzip_check-Keeps cfg file = run_check-Keeps _ _ _ _ (gzip-Keeps file) (
      run_check-Keeps _ _ _ _ (header-Keeps file) (
        either-Keeps cfg.deep_verify _ _
          (run_check-Keeps _ _ _ _ (deep-Keeps file cfg.subdomain cfg.base_dir) finish-Keeps)
          (skip_check-Keeps _ _ _ finish-Keeps)))
