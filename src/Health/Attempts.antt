-- ===== src/Health/Attempts.antt =====
-- `CheckAll` ends, and tells the truth.
use vmkit_agent.Base.{
  ℕ, zero, suc, ◌+◌, ◌/◌, ◌≤◌, Bool, true, none, ◌∷◌, ◌≡◌, ◌↔◌, refl, arith, ltb, ◌==◌, Bool-cases,
  inl, inr,
}
use vmkit_agent.Host.{Call, clock, elapsed, sleep, Host, Trace, Outcome, ok}
use vmkit_agent.Health.Round.{CheckConfig, run_health_checks}
use vmkit_agent.Health.Laws.{
  required_healthy, asks_database, count_calls, run_health_checks-IsRound,
}
use vmkit_agent.Health.{Checked, last_answer, final_check, attempts, check_all, wait_time}

-- The answer is a result. It is a success exactly where all services but the studio are healthy in
-- it, and then there is no error beside it; and so many rounds of checks were made at most.
pub record IsAnswer (rounds : ℕ) (before after : Trace) (o : Outcome Checked) : Type 0 where
  pub checked : Checked
  pub answers : o ≡ ok checked
  pub tells : checked.0.all_healthy ≡ required_healthy checked.0.services
  pub error_iff : (checked.1 ≡ none) ↔ (checked.0.all_healthy ≡ true)
  pub bounded : count_calls asks_database after ≤ count_calls asks_database before + rounds

module _ (cfg : CheckConfig) (host : Host) where
  final_check-IsAnswer :
      (attempt : ℕ) (w : Trace)
      → IsAnswer 1 w (final_check cfg attempt host w).1 (final_check cfg attempt host w).0
  unfolding final_check
  final_check-IsAnswer attempt w =
      let round = run_health_checks-IsRound cfg host w in
      record {
        checked =
            last_answer attempt round.result (host elapsed (run_health_checks cfg host w).1).output;
        answers = rw (round.answers) refl;
        tells = round.tells;
        error_iff = (λ h. ground arith, λ h. rw h refl);
        bounded = rw (round.answers) (omega (arith, round.once));
      }

  -- The same answer, counted from earlier on
  earlier :
      (rounds rounds' : ℕ) (before middle after : Trace) (o : Outcome Checked)
      → count_calls asks_database middle + rounds ≤ count_calls asks_database before + rounds'
      → IsAnswer rounds middle after o
      → IsAnswer rounds' before after o
  earlier rounds rounds' before middle after o fits a = record {
    checked = a.checked;
    answers = a.answers;
    tells = a.tells;
    error_iff = a.error_iff;
    bounded = omega (arith, a.bounded);
  }

  abbrev nap : ℕ → Call
  nap attempt = sleep (wait_time cfg (attempt + 1) / 1000000)

  -- There is time for the wait, by the clock after these calls.
  abbrev waits : ℕ → ℕ → Trace → Bool
  waits deadline attempt w = ltb ((host clock w).number + wait_time cfg (attempt + 1)) deadline

  attempts-IsAnswer :
      (left deadline attempt : ℕ) (w : Trace)
      → IsAnswer
          (suc left)
          w
          (attempts left cfg deadline attempt host w).1
          (attempts left cfg deadline attempt host w).0
  unfolding attempts
  attempts-IsAnswer zero deadline attempt w =
      earlier 1 1 w (clock ∷ w) _ _ (omega arith) (final_check-IsAnswer attempt (clock ∷ w))
  attempts-IsAnswer (suc left) deadline attempt w =
      let t = host clock w in
      let tried = (run_health_checks cfg host (clock ∷ w)).1 in
      let round = run_health_checks-IsRound cfg host (clock ∷ w) in
      elim (Bool-cases (ltb t.number deadline)) [
        | inr late ↦
            rw late (
              earlier 1 _ w (clock ∷ w) _ _ (omega arith)
                (final_check-IsAnswer attempt (clock ∷ w)))
        | inl early ↦ elim (Bool-cases round.result.all_healthy) [
          | inl good ↦
              rw (early, round.answers, good)
                (record {
                  checked = (round.result, none);
                  answers = refl;
                  tells = round.tells;
                  error_iff = (λ h. good, λ h. refl);
                  bounded = omega (arith, round.once);
                })
          | inr bad ↦ elim (Bool-cases (left == 0)) [
            | inl last ↦
                rw (early, round.answers, bad, last)
                  (earlier (suc left) _ w tried _ _ (omega (arith, round.once))
                    (attempts-IsAnswer left deadline (attempt + 1) tried))
            | inr more ↦ elim (Bool-cases (waits deadline attempt tried)) [
              | inl slept ↦
                  rw (early, round.answers, bad, more, slept)
                    (earlier (suc left) _ w (nap attempt ∷ clock ∷ tried) _ _
                      (omega (arith, round.once))
                      (attempts-IsAnswer left deadline (attempt + 1) (nap attempt ∷ clock ∷ tried)))
              | inr awake ↦
                  rw (early, round.answers, bad, more, awake)
                    (earlier (suc left) _ w (clock ∷ tried) _ _ (omega (arith, round.once))
                      (attempts-IsAnswer left deadline (attempt + 1) (clock ∷ tried)))
            ]
          ]
        ]
      ]

  -- Whatever the host and its clock answer, `CheckAll` ends: it makes no more than one round of
  -- checks for each retry, and one. Its result is a success exactly if all services in it but the
  -- last, which is the studio, are healthy, and it comes with an error exactly if it is none.
  pub check_all-IsAnswer :
      (w : Trace)
      → IsAnswer (suc cfg.max_retries) w (check_all cfg host w).1 (check_all cfg host w).0
  unfolding check_all
  check_all-IsAnswer w =
      earlier (suc cfg.max_retries) (suc cfg.max_retries) w (clock ∷ w) _ _ (omega arith)
        (attempts-IsAnswer cfg.max_retries ((host clock w).number + cfg.timeout) 0 (clock ∷ w))
