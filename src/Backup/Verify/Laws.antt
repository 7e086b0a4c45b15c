-- ===== src/Backup/Verify/Laws.antt =====
-- What the result of `Verify` says.
use vmkit_agent.Base.{String, Bool, true, false, not, List, [], ◌∷◌, ◌++◌, ◌≡◌, is_empty}
use vmkit_agent.Host.{Host, Trace, Outcome, ok}
use vmkit_agent.Backup.Verify.{
  VerifyBackupConfig, VerificationCheck, VerifyBackupResult, passed, failed, skipped, Rest,
}

-- The checks of a verification, and whether each is asked for, against those of its result: each
-- one that is asked for has passed, up to one that failed, if there is one, and each other one was
-- skipped. The last index says whether all have been gone through.
pub data Verdict : List (String × Bool) → List VerificationCheck → Bool → Type 0 where
  all_done : Verdict [] [] true
  passes :
      {n m : String} {ns : List (String × Bool)} {cs : List VerificationCheck} {b : Bool}
      → Verdict ns cs b
      → Verdict ((n, true) ∷ ns) (record { name = n; status = passed; message = m } ∷ cs) b
  skips :
      {n m : String} {ns : List (String × Bool)} {cs : List VerificationCheck} {b : Bool}
      → Verdict ns cs b
      → Verdict ((n, false) ∷ ns) (record { name = n; status = skipped; message = m } ∷ cs) b
  fails :
      {n m : String} {ns : List (String × Bool)}
      → Verdict ((n, true) ∷ ns) (record { name = n; status = failed; message = m } ∷ []) false

abbrev Concludes :
    List (String × Bool) → List VerificationCheck → Outcome VerifyBackupResult → Type 0
Concludes ns before o =
    (r : VerifyBackupResult) × (cs : List VerificationCheck) × (o ≡ ok r)
    × (r.checks ≡ before ++ cs)
    × Verdict ns cs r.success

-- From a result that is no success yet, the rest of a verification adds such checks.
pub record Judges (ns : List (String × Bool)) (f : Rest) : Type 0 where
  pub concludes :
      (r : VerifyBackupResult) (host : Host) (w : Trace)
      → r.success ≡ false
      → Concludes ns r.checks (f r host w).0

module _ (cfg : VerifyBackupConfig) where
  abbrev last_checks : List (String × Bool)
  last_checks =
      ("gzip_integrity", true) ∷ ("sql_header", true) ∷ ("deep_verify", cfg.deep_verify) ∷ []

  -- The checks of a verification, and whether each is asked for
  abbrev pub checks_of : List (String × Bool)
  checks_of =
      ("download_backup", true)
      ∷ ("file_check", true)
      ∷ ("checksum_verification", not (is_empty cfg.expected_checksum))
      ∷ last_checks
