-- ===== src/Backup/Verify/Sum.antt =====
-- What a successful `Verify` has compared.
use vmkit_agent.Base.{
  String, ◌<>◌, Bool, true, false, ◌&&◌, [], ◌∷◌, ◌≡◌, refl, arith, ◌==ₛ◌, is_empty, itoa,
  join_path, eq_iff, Bool-cases, inl, inr,
}
use vmkit_agent.Host.{
  Call, read_opened, message, unix_time, Host, Trace, Reply, Outcome, ok, err, M, succeeded,
}
use vmkit_agent.Host.Log.{answered}
use vmkit_agent.Backup.Tools.{calculate_file_checksum}
use vmkit_agent.Backup.Verify.{
  VerifyBackupConfig, VerifyBackupResult, Judgement, good, bad, Rest, judged, run_check, gzip_check,
  sum_check, file_check, download_check, begun, clock_call, verify, weigh_sum,
}
use vmkit_agent.Backup.Verify.Keeps.{RestKeeps, gzip_check-Keeps}

-- The file that the backup is downloaded into, named for the time that the machine gives
abbrev pub file_of : VerifyBackupConfig → Host → String
file_of cfg host = join_path "/tmp" (
    "verify_"
    <> cfg.backup_id
    <> "_"
    <> itoa (host unix_time (clock_call ∷ [])).number
    <> ".sql.gz")

module _ (digest : String → String) (cfg : VerifyBackupConfig) (host : Host) where
  -- A read of the file that succeeded and whose digest is the expected one
  abbrev pub is_expected : String → Call → Reply → Bool
  is_expected file (read_opened path) r =
      path ==ₛ file && succeeded r && ("sha256:" <> digest r.output) ==ₛ cfg.expected_checksum
  is_expected file _ r = false

  abbrev Certifies : String → Rest → Type 0
  Certifies file f =
      (r : VerifyBackupResult) (w : Trace)
      → r.success ≡ false
      → (r' : VerifyBackupResult) → (f r host w).0 ≡ ok r'
      → r'.success ≡ true
      → answered host (is_expected file) (f r host w).1 ≡ true

  ok-injective : {A : Type 0} {a b : A} → ok a ≡ ok b → a ≡ b
  ok-injective e = cc

  judged-Certifies :
      (file n : String) (next : Rest) (j : Judgement)
      → Certifies file next
      → Certifies file (λ r. judged n next r j)
  unfolding judged
  judged-Certifies file n next (good note) rest r w h r' e s = rest _ w h r' e s
  judged-Certifies file n next (bad note message overall) rest r w h r' e s =
      let same = ok-injective e in ground arith

  run_check-Certifies :
      {A : Type 0} (file n : String) (weigh : Outcome A → Judgement) (m : M A) (next : Rest)
      → Certifies file next
      → Certifies file (run_check n weigh m next)
  unfolding run_check
  run_check-Certifies file n weigh m next rest r w h =
      judged-Certifies file n next (weigh (m host w).0) rest r (m host w).1 h

  judged-compared :
      (file n : String) (next : Rest) (r r' : VerifyBackupResult) (o : Outcome String) (w : Trace)
      → RestKeeps host (is_expected file) next
      → r.success ≡ false
      → ((sum : String)
          → o ≡ ok sum
          → (sum ==ₛ cfg.expected_checksum) ≡ true
          → answered host (is_expected file) w ≡ true)
      → (judged n next r (weigh_sum cfg.expected_checksum o) host w).0 ≡ ok r'
      → r'.success ≡ true
      → answered host
          (is_expected file)
          (judged n next r (weigh_sum cfg.expected_checksum o) host w).1
        ≡ true
  unfolding judged
  judged-compared file n next r r' (err x) w keeps h read e s =
      let same = ok-injective e in ground arith
  judged-compared file n next r r' (ok sum) w keeps h read e s =
      elim (Bool-cases (sum ==ₛ cfg.expected_checksum)) [
        | inl equal ↦ rw equal ((keeps _).keeps w (read sum refl equal))
        | inr other ↦ let same = ok-injective (rw other at e) in ground arith
      ]

  sum_check-Certifies :
      (file : String)
      → is_empty cfg.expected_checksum ≡ false
      → Certifies file (sum_check digest cfg file)
  unfolding sum_check run_check calculate_file_checksum
  sum_check-Certifies file given r w h r' e s =
      let compared =
        judged-compared file _ (gzip_check cfg file) r r'
          (calculate_file_checksum digest file host w).0
          (calculate_file_checksum digest file host w).1
          (gzip_check-Keeps host (is_expected file) cfg file) h
          (λ sum e equal. ground (arith, eq_iff file file)) in
      rw given (compared (rw given at e) s)

  -- When the configuration names a checksum and `Verify` ends with a
  -- success, the file that the backup was downloaded into has been read to its end, and SHA-256 of
  -- what was read is that checksum.
  pub verify-compared :
      {r : VerifyBackupResult}
      → is_empty cfg.expected_checksum ≡ false
      → (verify digest cfg host []).0 ≡ ok r
      → r.success ≡ true
      → answered host (is_expected (file_of cfg host)) (verify digest cfg host []).1 ≡ true
  unfolding verify download_check file_check
  verify-compared {r} given e s =
      let certified =
        run_check-Certifies (file_of cfg host) _ _ _ _
          (run_check-Certifies (file_of cfg host) _ _ _ _
            (sum_check-Certifies (file_of cfg host) given))
          (begun cfg _) (unix_time ∷ clock_call ∷ []) refl r e s in
      ground arith
