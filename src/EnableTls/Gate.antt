-- ===== src/EnableTls/Gate.antt =====
-- What is in place when the web server takes up the site.
use vmkit_agent.Base.{
  String, Bool, true, false, not, ◌&&◌, ◌||◌, [], ◌∷◌, ◌≡◌, refl, arith, ◌==ₛ◌, eq_iff, join_path,
  is_empty, Bool-cases, inl, inr,
}
use vmkit_agent.Host.{
  Call, write_file, chmod, mkdir_all, Host, Trace, ok, M, succeeded, Outcome-cases,
}
use vmkit_agent.Host.Log.{runs, made, done, guarded, guarded-none}
use vmkit_agent.Stage.{begin}
use vmkit_agent.Stage.Safe.{
  Safe, Sound, always-Sound, then-Safe, stage-Safe, optional-Safe, Safe-calls,
}
use vmkit_agent.Nginx.Site.{generate_site_config_content}
use vmkit_agent.Nginx.{
  site_path, htpasswd_path_for, write_htpasswd, configure_rate_limiting, create_site_config,
  put_site,
}
use vmkit_agent.EnableTls.Steps.{
  EnableTlsConfig, Files, Order, write_files, write_certificate, certificate_path, site_of,
  configure_nginx_https,
}
use vmkit_agent.EnableTls.{enable_flow, enable_tls}

-- The call makes the web server take up its configuration.
abbrev pub reloads : Call → Bool
reloads = runs ("systemctl" ∷ "reload" ∷ "nginx" ∷ [])

abbrev pub tests : Call → Bool
tests = runs ("nginx" ∷ "-t" ∷ [])

abbrev pub unlocks : String → Call → Bool
unlocks path (chmod path' mode) = path' ==ₛ path
unlocks path _ = false

module _ (cfg : EnableTlsConfig) (host : Host) where
  abbrev htpasswd : String
  htpasswd = htpasswd_path_for cfg.subdomain

  -- The call writes the site of the instance over HTTPS, the studio behind its password.
  abbrev pub writes_site : Call → Bool
  writes_site (write_file path content mode) =
      (path ==ₛ site_path cfg.subdomain)
      && (content ==ₛ generate_site_config_content (site_of cfg htpasswd))
  writes_site _ = false

  -- The latest call is a test of the configuration that passed; the one before it wrote the site;
  -- and before that the file of the password was made readable.
  abbrev pub ready : Trace → Bool
  ready (t ∷ s ∷ w) =
      tests t && succeeded (host t (s ∷ w)) && writes_site s && done host (unlocks htpasswd) w
  ready _ = false

  abbrev Calm : Trace → Type 0
  Calm w = made reloads w ≡ false

  abbrev Fine : Trace → Type 0
  Fine w = guarded reloads ready w ≡ true

  Calm-Fine : (w : Trace) → Calm w → Fine w
  Calm-Fine = guarded-none reloads ready

  abbrev Locked : Trace → Type 0
  Locked w = Calm w × (done host (unlocks htpasswd) w ≡ true)

  write_files-Calm :
      (dir : String) (files : Files) (w : Trace) → Calm w → Calm (write_files dir files host w).1
  unfolding write_files
  write_files-Calm dir [] w h = h
  write_files-Calm dir ((name, text) ∷ files) w h =
      let write = write_file (join_path dir name) text 0o600 in
      ground (arith, write_files-Calm dir files (write ∷ w) h)

  write_certificate-Calm :
      (order : Order) (domain dir cert key : String)
      → Sound host Calm Calm Fine (write_certificate order domain dir cert key)
  unfolding write_certificate
  write_certificate-Calm order domain dir cert key =
      always-Sound host Calm Calm Fine (write_certificate order domain dir cert key) Calm-Fine
        (λ w h.
          let path = certificate_path domain dir in
          let files = order (("fullchain.pem", cert) ∷ ("privkey.pem", key) ∷ []) in
          ground (arith, write_files-Calm path files (mkdir_all path 0o755 ∷ w) h))

  rate_limiting-Locked : (w : Trace) → Locked w → Locked (configure_rate_limiting host w).1
  unfolding configure_rate_limiting
  rate_limiting-Locked w h = ground arith

  put_site-Fine : (w : Trace) → Locked w → Fine (put_site (site_of cfg htpasswd) host w).1
  unfolding put_site
  put_site-Fine w h =
      let content = generate_site_config_content (site_of cfg htpasswd) in
      ground (
        arith,
        Calm-Fine w h.0,
        eq_iff (site_path cfg.subdomain) (site_path cfg.subdomain),
        eq_iff content content,
      )

  create_site-Fine :
      (w : Trace) → Locked w → Fine (create_site_config (site_of cfg htpasswd) host w).1
  unfolding create_site_config
  create_site-Fine w h =
      let (o, w') = configure_rate_limiting host w in
      let locked = rate_limiting-Locked w h in
      elim (Outcome-cases o) [
        | inl (a, fine) ↦ rw fine (put_site-Fine w' locked)
        | inr (e, bad) ↦ rw bad (Calm-Fine w' locked.0)
      ]

  module _ (sha1 : String → String) where
    abbrev gate : M String
    gate = write_htpasswd sha1 cfg.subdomain cfg.dashboard_username cfg.dashboard_password

    gate-Calm : (w : Trace) → Calm w → Calm (gate host w).1
    unfolding write_htpasswd
    gate-Calm w h = ground arith

    gate-done :
        (w : Trace) (path : String)
        → (gate host w).0 ≡ ok path
        → (path ≡ htpasswd) × (done host (unlocks htpasswd) (gate host w).1 ≡ true)
    unfolding write_htpasswd
    gate-done w path h = ground (arith, eq_iff htpasswd htpasswd)

    configure-Fine : (w : Trace) → Calm w → Fine (configure_nginx_https sha1 cfg host w).1
    unfolding configure_nginx_https
    configure-Fine w h =
        let (o, w') = gate host w in
        elim (Bool-cases (is_empty cfg.dashboard_username || is_empty cfg.dashboard_password)) [
          | inl missing ↦ rw missing (Calm-Fine w h)
          | inr given ↦ elim (Outcome-cases o) [
            | inl (path, fine) ↦
                let (same, locked) = gate-done w path fine in
                rw (given, fine, same) (create_site-Fine w' (gate-Calm w h, locked))
            | inr (e, bad) ↦ rw (given, bad) (Calm-Fine w' (gate-Calm w h))
          ]
        ]

    enable_flow-Fine : (order : Order) → Safe host Calm Fine Fine (enable_flow sha1 order cfg)
    unfolding enable_flow
    enable_flow-Fine order = then-Safe (stage-Safe _ _ _ (write_certificate-Calm order _ _ _ _)) (
        then-Safe
          (optional-Safe {Q = Calm} (not (is_empty cfg.studio_domain))
            (λ given. stage-Safe _ _ _ (write_certificate-Calm order _ _ _ _)) (λ skipped w h. h))
          (stage-Safe _ _ _ (
            always-Sound host Calm Fine Fine (configure_nginx_https sha1 cfg) (λ w h. h)
              configure-Fine)))

    -- Whatever the host answers: `EnableTLS` has the web server take up its configuration only
    -- right after a test of it that passed, which came right after the writing of the site that
    -- `site_of` describes, and after the file of the studio's password was made readable.
    pub enable_tls-gated :
        (order : Order) → guarded reloads ready (enable_tls sha1 order cfg host []).1 ≡ true
    unfolding enable_tls
    enable_tls-gated order = Safe-calls (enable_flow-Fine order) (λ w h. h) (begin tt) [] refl
