-- ===== src/OpenPort/Laws.antt =====
-- `OpenPort` from end to end.
use vmkit_agent.Base.{
  ℕ, ◌<◌, ℤ, pos, negsuc, String, true, false, List, [], ◌≡◌, refl, arith, ◌<>◌, show_int,
  out_of_range, Bool-cases, inl, inr, if◌then◌else◌,
}
use vmkit_agent.Host.{Host, Trace, Outcome, ok, err, bind-eq_ok, ◌>>◌, M}
use vmkit_agent.Ufw.Sort.{count}
use vmkit_agent.Ufw.Diff.Exact.{sources}
use vmkit_agent.Ufw.Diff.Desired.{desires}
use vmkit_agent.OpenPort.{
  OpenPortConfig, OpenPortResult, normalize_protocol, ensure_ufw_installed, concluded, reconcile,
  open_port,
}
use vmkit_agent.OpenPort.Reconciled.{IsFirewall, rules_at, reconcile_exact}

-- No port that a machine has: negative, 0, or above 65535.
pub data IsNoPort : ℤ → Type 0 where
  negative : {n : ℕ} → IsNoPort (negsuc n)
  zero_port : IsNoPort (pos 0)
  too_large : {n : ℕ} → 65535 < n → IsNoPort (pos n)

IsNoPort-out_of_range : {port : ℤ} → IsNoPort port → out_of_range port ≡ true
IsNoPort-out_of_range negative = refl
IsNoPort-out_of_range zero_port = refl
IsNoPort-out_of_range (too_large {n} h) = ground arith

abbrev refusal : OpenPortConfig → OpenPortResult
refusal cfg = record {
  success = false;
  port = cfg.port;
  protocol = normalize_protocol cfg.protocol;
  allowed_cidrs = [];
  error_message = "invalid port number: " <> show_int cfg.port;
}

refused_at :
    (cfg : OpenPortConfig) (host : Host) (w : Trace)
    → out_of_range cfg.port ≡ true
    → open_port cfg host w ≡ (ok (refusal cfg), w)
unfolding open_port
refused_at cfg host w h = rw h

-- A port that is negative, 0 or above 65535 is refused with its number in the error, and no command
-- is run.
pub open_port_refused :
    (cfg : OpenPortConfig) (host : Host) (w : Trace)
    → IsNoPort cfg.port
    → open_port cfg host w ≡ (
      ok (record {
        success = false;
        port = cfg.port;
        protocol = normalize_protocol cfg.protocol;
        allowed_cidrs = [];
        error_message = "invalid port number: " <> show_int cfg.port;
      }),
      w,
    )
open_port_refused cfg host w h = refused_at cfg host w (IsNoPort-out_of_range h)

concluded-success :
    (start : OpenPortResult) (o : Outcome (List String)) {r : OpenPortResult}
    → start.success ≡ false
    → concluded start o ≡ r
    → r.success ≡ true
    → o ≡ ok r.allowed_cidrs
unfolding concluded
concluded-success start (ok allowed) z e s = ground arith
concluded-success start (err e) z e' s = ground arith

ok-injective : {A : Type 0} {a b : A} → ok a ≡ ok b → a ≡ b
ok-injective e = cc

module _ (cfg : OpenPortConfig) (host : Host) where
  abbrev protocol : String
  protocol = normalize_protocol cfg.protocol

  abbrev body : M (List String)
  body = ensure_ufw_installed >> reconcile cfg.port protocol cfg.source_cidrs

  open_port-body :
      (w : Trace) {r : OpenPortResult}
      → (open_port cfg host w).0 ≡ ok r
      → r.success ≡ true
      → ((body host w).0 ≡ ok r.allowed_cidrs) × ((open_port cfg host w).1 ≡ (body host w).1)
  unfolding open_port
  open_port-body w {r} h s = elim (Bool-cases (out_of_range cfg.port)) [
    | inl bad ↦ let refused = ok-injective (rw (refused_at cfg host w bad) at h) in ground arith
    | inr good ↦
        rw good
          (concluded-success _ (body host w).0 {r = r} refl (ok-injective (rw good at h)) s, refl)
  ]

  -- On a machine whose `ufw` works as documented, and for a list of sources that does not name
  -- everybody and gives each source in the form in which `ufw` lists it, a result of `OpenPort`
  -- that reports success tells the truth: after the call the port has exactly one rule for each
  -- desired source and none for another, and the result lists those sources, each once.
  pub open_port_exact :
      (as_listed : String → String)
      → IsFirewall host cfg.port protocol as_listed
      → ((d : String) → desires cfg.source_cidrs d ≡ true → as_listed d ≡ d)
      → (w : Trace) {r : OpenPortResult} (c : String) → desires cfg.source_cidrs "0.0.0.0/0" ≡ false
      → desires cfg.source_cidrs "::/0" ≡ false
      → (open_port cfg host w).0 ≡ ok r
      → r.success ≡ true
      → (count c (sources (rules_at host cfg.port protocol (open_port cfg host w).1))
          ≡ (if desires cfg.source_cidrs c then 1 else 0))
        × (count c r.allowed_cidrs ≡ (if desires cfg.source_cidrs c then 1 else 0))
  open_port_exact as_listed F plain w {r} c v4 v6 h s =
      let (done, calls) = open_port-body w h s in
      let (_, installed, rest) =
        bind-eq_ok ensure_ufw_installed (λ _. reconcile cfg.port protocol cfg.source_cidrs) host w
          done in
      let exact =
        reconcile_exact host cfg.port protocol as_listed F cfg.source_cidrs plain
          (ensure_ufw_installed host w).1 {allowed = r.allowed_cidrs} c v4 v6 (rw rest at done) in
      rw (calls, rest) exact
