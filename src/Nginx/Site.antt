-- ===== src/Nginx/Site.antt =====
-- The text of the site of an instance: `generateSiteConfigContent` and its template. The template
-- always parses and executes, so there is no error.
use vmkit_agent.Base.{String, ◌<>◌, Bool, not, ℤ, show_int, is_empty, if◌then◌else◌}

pub record SiteConfig : Type 0 where
  pub subdomain : String
  pub domain : String
  pub studio_domain : String
  pub kong_port : ℤ
  pub studio_port : ℤ
  pub tls_enabled : Bool
  pub cert_path : String
  pub key_path : String
  pub studio_cert_path : String
  pub studio_key_path : String
  -- the file with the password of the studio; "" leaves it public
  pub studio_htpasswd_path : String

abbrev pub api_listen : SiteConfig → String
api_listen s =
    if s.tls_enabled
    then "    listen 443 ssl http2;\n" <> "    listen [::]:443 ssl http2;\n" <> "\n"
      <> "    ssl_certificate " <> s.cert_path <> ";\n" <> "    ssl_certificate_key " <> s.key_path
      <> ";\n" <> "\n" <> "    # SSL configuration\n" <> "    ssl_protocols TLSv1.2 TLSv1.3;\n"
      <> "    ssl_ciphers ECDHE-ECDSA-AES128-GCM-SHA256:ECDHE-RSA-AES128-GCM-SHA256:ECDHE-ECDSA-AES256-GCM-SHA384:ECDHE-RSA-AES256-GCM-SHA384:ECDHE-ECDSA-CHACHA20-POLY1305:ECDHE-RSA-CHACHA20-POLY1305:DHE-RSA-AES128-GCM-SHA256:DHE-RSA-AES256-GCM-SHA384;\n"
      <> "    ssl_prefer_server_ciphers off;\n" <> "    ssl_session_cache shared:SSL:10m;\n"
      <> "    ssl_session_timeout 10m;\n"
    else "    listen 80;\n" <> "    listen [::]:80;\n"

abbrev pub api_header : SiteConfig → String
api_header s =
    if s.tls_enabled
    then "    add_header Strict-Transport-Security \"max-age=63072000; includeSubDomains; preload\" always;\n"
    else ""

abbrev pub studio_listen : SiteConfig → String
studio_listen s =
    if s.tls_enabled
    then "    listen 443 ssl http2;\n" <> "    listen [::]:443 ssl http2;\n" <> "\n"
      <> "    ssl_certificate " <> s.studio_cert_path <> ";\n" <> "    ssl_certificate_key "
      <> s.studio_key_path <> ";\n" <> "\n" <> "    # SSL configuration\n"
      <> "    ssl_protocols TLSv1.2 TLSv1.3;\n"
      <> "    ssl_ciphers ECDHE-ECDSA-AES128-GCM-SHA256:ECDHE-RSA-AES128-GCM-SHA256:ECDHE-ECDSA-AES256-GCM-SHA384:ECDHE-RSA-AES256-GCM-SHA384:ECDHE-ECDSA-CHACHA20-POLY1305:ECDHE-RSA-CHACHA20-POLY1305:DHE-RSA-AES128-GCM-SHA256:DHE-RSA-AES256-GCM-SHA384;\n"
      <> "    ssl_prefer_server_ciphers off;\n" <> "    ssl_session_cache shared:SSL:10m;\n"
      <> "    ssl_session_timeout 10m;\n"
    else "    listen 80;\n" <> "    listen [::]:80;\n"

abbrev pub studio_header : SiteConfig → String
studio_header s =
    if s.tls_enabled
    then "    add_header Strict-Transport-Security \"max-age=63072000; includeSubDomains; preload\" always;\n"
    else ""

abbrev pub studio_auth : SiteConfig → String
studio_auth s =
    if not (is_empty s.studio_htpasswd_path)
    then "        auth_basic \"Supabase Studio\";\n" <> "        auth_basic_user_file "
      <> s.studio_htpasswd_path <> ";\n"
    else ""

abbrev pub redirect : SiteConfig → String
redirect s =
    if s.tls_enabled
    then "\n" <> "# HTTP to HTTPS redirect\n" <> "server {\n" <> "    listen 80;\n"
      <> "    listen [::]:80;\n" <> "    server_name " <> s.domain <> " " <> s.studio_domain
      <> ";\n" <> "\n" <> "    location / {\n" <> "        return 301 https://$host$request_uri;\n"
      <> "    }\n" <> "}\n"
    else ""

abbrev pub upstreams : SiteConfig → String
upstreams s =
    "# Supabase instance: "
    <> s.subdomain
    <> "\n"
    <> "# Generated by vmkit-agent\n"
    <> "\n"
    <> "# Rate-limited upstream for API (Kong)\n"
    <> "upstream "
    <> s.subdomain
    <> "_api {\n"
    <> "    server 127.0.0.1:"
    <> show_int s.kong_port
    <> " max_fails=3 fail_timeout=30s;\n"
    <> "    keepalive 32;\n"
    <> "}\n"
    <> "\n"
    <> "# Upstream for Studio\n"
    <> "upstream "
    <> s.subdomain
    <> "_studio {\n"
    <> "    server 127.0.0.1:"
    <> show_int s.studio_port
    <> " max_fails=3 fail_timeout=30s;\n"
    <> "    keepalive 16;\n"
    <> "}\n"
    <> "\n"

abbrev pub api_head : SiteConfig → String
api_head s =
    "# API server block\n"
    <> "server {\n"
    <> api_listen s
    <> "\n"
    <> "\n"
    <> "    server_name "
    <> s.domain
    <> ";\n"
    <> "\n"
    <> "    # Security headers\n"
    <> "    add_header X-Frame-Options \"SAMEORIGIN\" always;\n"
    <> "    add_header X-Content-Type-Options \"nosniff\" always;\n"
    <> "    add_header X-XSS-Protection \"1; mode=block\" always;\n"
    <> api_header s
    <> "\n"
    <> "\n"
    <> "    # Tighten default request-body read timeout (nginx default is 60s).\n"
    <> "    # Caps exposure to slow-upload DoS while still generous for legit clients.\n"
    <> "    client_body_timeout 30s;\n"
    <> "\n"

abbrev pub api_locations : SiteConfig → String
api_locations s =
    "    # Rate limiting - Auth endpoints (strict: 5r/s, burst 5)\n"
    <> "    location /auth/v1/token {\n"
    <> "        limit_req zone=supabyoi_auth burst=5 nodelay;\n"
    <> "        limit_req_status 429;\n" <> "        proxy_pass http://" <> s.subdomain <> "_api;\n"
    <> "        include /etc/nginx/proxy_params;\n" <> "    }\n" <> "\n"
    <> "    location ~ ^/auth/v1/(signup|recover|otp) {\n"
    <> "        limit_req zone=supabyoi_auth burst=3 nodelay;\n"
    <> "        limit_req_status 429;\n" <> "        proxy_pass http://" <> s.subdomain <> "_api;\n"
    <> "        include /etc/nginx/proxy_params;\n" <> "    }\n" <> "\n"
    <> "    # Rate limiting - REST API (moderate: 30r/s, burst 50)\n"
    <> "    location /rest/v1/ {\n"
    <> "        # 25m is generous for text/jsonb upserts without enabling obvious abuse.\n"
    <> "        # Storage uploads go through /storage/v1/ which allows 100m.\n"
    <> "        client_max_body_size 25m;\n" <> "        limit_req zone=supabyoi_api burst=50;\n"
    <> "        limit_req_status 429;\n" <> "        proxy_pass http://" <> s.subdomain <> "_api;\n"
    <> "        include /etc/nginx/proxy_params;\n" <> "    }\n" <> "\n"
    <> "    # Rate limiting - Storage (moderate: 10r/s, burst 20)\n"
    <> "    location /storage/v1/ {\n" <> "        client_max_body_size 100m;\n"
    <> "        limit_req zone=supabyoi_storage burst=20;\n" <> "        limit_req_status 429;\n"
    <> "        proxy_pass http://" <> s.subdomain <> "_api;\n"
    <> "        include /etc/nginx/proxy_params;\n" <> "    }\n" <> "\n"
    <> "    # Other API endpoints (no rate limiting)\n" <> "    location / {\n"
    <> "        proxy_pass http://" <> s.subdomain <> "_api;\n"
    <> "        include /etc/nginx/proxy_params;\n" <> "\n"
    <> "        # WebSocket support for Realtime\n" <> "        proxy_http_version 1.1;\n"
    <> "        proxy_set_header Upgrade $http_upgrade;\n"
    <> "        proxy_set_header Connection \"upgrade\";\n" <> "    }\n" <> "\n"
    <> "    # Custom 429 error response\n" <> "    error_page 429 = @rate_limited;\n"
    <> "    location @rate_limited {\n" <> "        default_type application/json;\n"
    <> "        return 429 '{\"error\": \"too_many_requests\", \"message\": \"Rate limit exceeded. Please try again later.\"}';\n"
    <> "    }\n" <> "}\n" <> "\n"

abbrev pub studio_server : SiteConfig → String
studio_server s =
    "# Studio server block\n"
    <> "server {\n"
    <> studio_listen s
    <> "\n"
    <> "\n"
    <> "    server_name "
    <> s.studio_domain
    <> ";\n"
    <> "\n"
    <> "    # Security headers\n"
    <> "    add_header X-Frame-Options \"SAMEORIGIN\" always;\n"
    <> "    add_header X-Content-Type-Options \"nosniff\" always;\n"
    <> "    add_header X-XSS-Protection \"1; mode=block\" always;\n"
    <> api_header s
    <> "\n"
    <> "    location / {\n"
    <> studio_auth s
    <> "        proxy_pass http://"
    <> s.subdomain
    <> "_studio;\n"
    <> "        include /etc/nginx/proxy_params;\n"
    <> "\n"
    <> "        # WebSocket support\n"
    <> "        proxy_http_version 1.1;\n"
    <> "        proxy_set_header Upgrade $http_upgrade;\n"
    <> "        proxy_set_header Connection \"upgrade\";\n"
    <> "    }\n"
    <> "}\n"

-- The studio uses the certificate of the instance if it has none of its own.
abbrev pub with_certificates : SiteConfig → SiteConfig
with_certificates s = record s {
  studio_cert_path = if is_empty s.studio_cert_path then s.cert_path else s.studio_cert_path;
  studio_key_path = if is_empty s.studio_key_path then s.key_path else s.studio_key_path;
}

abbrev pub template : SiteConfig → String
template s = upstreams s <> api_head s <> api_locations s <> studio_server s <> redirect s

unfoldable pub generate_site_config_content : SiteConfig → String
generate_site_config_content s = template (with_certificates s)
