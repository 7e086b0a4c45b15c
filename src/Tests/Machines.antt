-- ===== src/Tests/Machines.antt =====
-- Machines that answer the calls of the tests.
use vmkit_agent.Base.{String, false, none, some, List, [], ◌∷◌, ◌==ₛ◌, if◌then◌else◌}
use vmkit_agent.Host.{
  exec, stat, http_get, http_put, read_opened, read_unzipped, clock, unix_time, Reply, Host,
}
use vmkit_agent.Host.Time.{slept}
use vmkit_agent.Host.Log.{runs}

abbrev pub reply : Reply
reply = record {
  error = none;
  not_exist = false;
  output = "";
  errors = "";
  number = 0;
  entries = [];
}

abbrev pub failing : String → Reply
failing e = record reply { error = some e }

-- Every call succeeds, and every command prints what the checks of `Harden` look for.
abbrev pub willing : Host
willing c w = record reply {
  output = "docker :2222 Status: active 2222/tcp";
  entries =
      record { name = "sshd_config.20260101-000000"; is_dir = false }
      ∷ record { name = "sshd_config.20260201-000000"; is_dir = false }
      ∷ [];
}

-- The machine of another, on which one command fails.
abbrev pub but : Host → List String → Host
but host argv c w = if runs argv c then failing "exit status 1" else host c w

abbrev pub printed : String → Reply
printed text = record reply { output = text }

abbrev of_command : List String → Reply
of_command (a ∷ b ∷ c ∷ rest) =
    if a ==ₛ "df"
    then printed "Filesystem 1B Used Available\n/dev/sda1 90 10 9000000000 1% /\n"
    else if c ==ₛ "inspect"
    then printed "true\n"
    else if c ==ₛ "exec"
    then printed "localhost:5432 - accepting connections\n"
    else printed "c1\n"
of_command _ = reply

-- A machine with a healthy instance. Its clock shows the time that the program has slept.
abbrev pub server : Host
server (exec dir limit argv) w = of_command argv
server (http_get url) w = record reply { number = 200 }
server (http_put url file) w = record reply { number = 200 }
server (stat path) w = record reply { number = 2000 }
server (read_opened path) w = printed "dump"
server (read_unzipped path) w = printed "-- PostgreSQL database dump\n"
server clock w = record reply { number = slept w }
server unix_time w = record reply { number = 17 }
server c w = reply
