-- ===== src/Cleanup/Plan.antt =====
-- `getCleanupSteps`
use vmkit_agent.Base.{
  String, ◌<>◌, Bool, true, false, ◌||◌, List, [], ◌∷◌, ◌++◌, ◌==ₛ◌, is_empty, ℤ, pos, int_eq,
  show_int, if◌then◌else◌,
}

pub record CleanupConfig : Type 0 where
  pub level : String
  pub pre_hardening_ssh_port : ℤ
  pub pre_hardening_ssh_user : String
  pub restore_password_auth : Bool
  pub disable_firewall : Bool

pub record CleanupStep : Type 0 where
  pub name : String
  pub command : String
  pub args : List String

abbrev pub port_of : CleanupConfig → ℤ
port_of cfg =
    if int_eq cfg.pre_hardening_ssh_port (pos 0) then pos 22 else cfg.pre_hardening_ssh_port

abbrev pub user_of : CleanupConfig → String
user_of cfg = if is_empty cfg.pre_hardening_ssh_user then "root" else cfg.pre_hardening_ssh_user

abbrev pub sudo_step : String → List String → CleanupStep
sudo_step name args = record { name = name; command = "sudo"; args = args }

unfoldable pub file_steps : List CleanupStep
file_steps =
    sudo_step "Remove Supabase instance directories" ("rm" ∷ "-rf" ∷ "/opt/supabase" ∷ [])
    ∷ sudo_step "Remove Supabyoi agent directory" ("rm" ∷ "-rf" ∷ "/opt/supabyoi" ∷ [])
    ∷ sudo_step "Remove Nginx Supabase site configurations"
        ("rm" ∷ "-rf" ∷ "/etc/nginx/supabase-sites" ∷ [])
    ∷ sudo_step "Remove ACME challenge directory" ("rm" ∷ "-rf" ∷ "/var/www/acme-challenge" ∷ [])
    ∷ sudo_step "Reload Nginx to remove site configurations" ("systemctl" ∷ "reload" ∷ "nginx" ∷ [])
    ∷ []

unfoldable pub fail2ban_steps : List CleanupStep
fail2ban_steps =
    sudo_step "Remove fail2ban Supabyoi configurations"
      ("rm" ∷ "-f" ∷ "/etc/fail2ban/jail.d/supabyoi.conf" ∷ [])
    ∷ sudo_step "Restart fail2ban to apply changes" ("systemctl" ∷ "restart" ∷ "fail2ban" ∷ [])
    ∷ []

abbrev given : Bool → CleanupStep → List CleanupStep
given true s = s ∷ []
given false s = []

unfoldable pub ssh_steps : CleanupConfig → List CleanupStep
ssh_steps cfg =
    let port = show_int (port_of cfg) in
    (sudo_step "Remove Supabyoi SSH configuration"
        ("rm" ∷ "-f" ∷ "/etc/ssh/sshd_config.d/supabyoi.conf" ∷ [])
      ∷ sudo_step ("Restore SSH port to " <> port <> " in main config")
          ("sed" ∷ "-i" ∷ ("s/^Port .*/Port " <> port <> "/") ∷ "/etc/ssh/sshd_config" ∷ [])
      ∷ [])
    ++ (given cfg.restore_password_auth (
          sudo_step "Re-enable password authentication" (
            "sed" ∷ "-i" ∷ "s/^PasswordAuthentication no/PasswordAuthentication yes/"
            ∷ "/etc/ssh/sshd_config" ∷ []))
        ++ ((sudo_step "Re-enable root/original user login" (
                "sed" ∷ "-i" ∷ "s/^PermitRootLogin no/PermitRootLogin yes/" ∷ "/etc/ssh/sshd_config"
                ∷ [])
              ∷ sudo_step "Restart SSH service to apply changes"
                  ("systemctl" ∷ "restart" ∷ "sshd" ∷ [])
              ∷ [])
            ++ given cfg.disable_firewall
                (sudo_step "Disable UFW firewall" ("ufw" ∷ "disable" ∷ []))))

abbrev pub user_step : CleanupStep
user_step = sudo_step "Remove supabyoi user" ("userdel" ∷ "-r" ∷ "supabyoi" ∷ [])

unfoldable pub get_cleanup_steps : CleanupConfig → List CleanupStep
get_cleanup_steps cfg =
    let full = cfg.level ==ₛ "full" || cfg.level ==ₛ "revert" in
    let revert = cfg.level ==ₛ "revert" in
    file_steps
    ++ ((if full then fail2ban_steps else [])
        ++ ((if revert then ssh_steps cfg else []) ++ (if full then user_step ∷ [] else [])))
