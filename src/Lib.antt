-- ===== src/Lib.antt =====
-- vmkit-agent: a model of the program, and theorems about it.
--
-- The program runs on a virtual machine, as a command or as a daemon that a gateway sends requests
-- to. It hardens the machine (SSH, firewall, fail2ban), opens ports to lists of sources, deploys
-- instances and removes them, rotates their credentials, puts the machine back to its hardened
-- state, takes itself off the machine, and replaces its own binary. Almost all it does is to run
-- commands of the system and to decide by their answers what to do next; the model is made for
-- that.
--
-- Host (Host/Core.antt) is the machine. `Call` names each call that the code makes of the system:
-- commands, files, the clock, HTTP. `Host` is any function from a call, and the calls made before
-- it, to the reply; so a theorem about all hosts covers every way in which the commands can fail,
-- and answers that change over time. `M A` is a piece of the program: it makes calls and returns a
-- value or an error text. `Trace` is the list of the calls made, the latest first; Host/Log.antt has
-- the tests on it that the safety theorems use (`guarded p q`: each call that `p` accepts was made
-- when `q` held of the calls before it). A command is one atomic call; what it does inside, and
-- other programs that run beside the agent, show only in the replies.
--
-- The files and the code:
--   Base, Base/*       the native numbers, lists, texts (as code points), integers, and the parts of
--                      Go's strings, strconv and path/filepath that the program uses. `%q` is
--                      `strconv.Quote` (Base/Quote.antt), where a code point that Unicode does not assign
--                      counts as printable if its block is assigned
--   Types, Types/*     pkg/types/types.go: statuses, steps and their order; the configuration and
--                      the result of each command stand with the command
--   Harden, Harden/*   internal/harden/harden.go: `Harden` is `harden`; each Go function has the
--                      model's function of the same name in snake case (`configureSSH` is
--                      `configure_ssh`), and a step of `Harden` is one of the `_step` functions
--   Ufw, Ufw/*         internal/openport/allowlist.go: `ParseUFWRulesForPort`, `DiffAllowlist` and
--                      `FormatAddRule`. `ufwLineRE` is a scanner (Ufw/Line.antt); the limit of 64 KiB
--                      on a line, in bytes, and the clamping of `strconv.Atoi` are kept.
--                      Ufw/Line/Shown.antt prints such a line, Ufw/Left.antt compares the lines of a
--                      listing with the rules that are read in it. Ufw/Delete.antt says
--                      what deleting by number does; Ufw/Purge.antt is the deletion of all rules of a
--                      kind, which internal/destroy and internal/resetvm share
--   OpenPort           internal/openport/openport.go, with `OpenPort` and `UpdateAllowlist`
--   Nginx, Nginx/Site  internal/nginx: installation, configuration, sites (the template is in
--                      Nginx/Site.antt, a condition of it being a function of its own) and password
--                      files. SHA-1 is a parameter
--   Docker             internal/docker/docker.go
--   Config             internal/config/config.go
--   EnableTls          internal/enabletls/enabletls.go, and the certificates of internal/tls/tls.go
--   Handlers           internal/daemon/handlers: `ContainersStop` and `LogsFetch`, from where the JSON of
--                      a request is read, and the requests that run one operation
--                      (Handlers/Adapters.antt), with the reading as a parameter
--   Destroy            internal/destroy/destroy.go; the containers are those of Compose, the site that of
--                      Nginx
--   ResetVm            internal/resetvm/resetvm.go; it calls Destroy for each instance
--   Cleanup            internal/cleanup/cleanup.go; the plan is in Cleanup/Plan.antt
--   RotateCreds        internal/rotatecreds/rotatecreds.go; the environment file is in
--                      RotateCreds/EnvFile.antt. The order in which Go visits a map is a parameter
--   SelfUpgrade        internal/selfupgrade/selfupgrade.go. The architecture and SHA-256 are
--                      parameters
--   Daemon             internal/daemon/daemon.go: tokens and welcome (Daemon/Token.antt), the queue over
--                      all connections as a step relation in which the goroutines take turns in any
--                      order (Daemon/Session.antt): the queue and the table of calls are made once, so
--                      a new connection leaves them as they are; the waits between connections
--                      (Daemon/Retry.antt). The methods are those of
--                      internal/daemon/handlers/register.go
--   Stage, Stage/*     the form of a command that runs in named steps and returns at the first one that
--                      fails, which internal/backup, upgrade and enabletls share (`stepSuccess`,
--                      `stepFail`); Stage/Plan.antt has the rules for which steps are run, Stage/Told.antt
--                      what the result then tells, and Stage/Safe.antt the rules for what holds of the calls
--   Backup, Backup/*   internal/backup: `Backup` (Backup/Save.antt) and `Restore` (Backup/Restore.antt)
--                      of backup.go, `Verify` (Backup/Verify.antt) of verify.go, and what they share
--                      (Backup/Tools.antt). SHA-256 is a parameter
--   Upgrade, Upgrade/* internal/upgrade/upgrade.go: the registry of versions, the replacement of images
--                      in a compose file, and `Upgrade` with its rollback; it calls Backup, Health and
--                      Compose
--   Health, Health/*   internal/health/health.go: one round of checks (Health/Round.antt) and
--                      `CheckAll`, which repeats it until a deadline
--   Compose, Compose/* internal/compose/compose.go: its methods, the states of the containers, and the
--                      wait for them. A line of JSON is read by a parameter
--   Instance           internal/instance/instance.go: the state of an instance, its start, stop,
--                      restart and logs
--   Tests              runs on concrete machines, and each theorem at a concrete input
--
-- Conventions. A Go int is `ℤ` where it comes from a configuration and a native number where the code
-- makes it from digits or counts; no value near 2^63 is added to, so there is no wrap-around. A
-- Go map used as a set is the list of its keys; where the code sorts what it takes from a map, so
-- does the model. Times and durations of steps are left out, since nothing reads them. Almost every
-- loop of the modelled code runs over a list or a number of attempts that it counts itself, and is
-- structural recursion. There is fuel in two places: for the digits of a number, where the number
-- itself is enough (`Base.Text.itoa`), and for the wait for the containers, which ends by the clock
-- (`Compose.Waiting.wait_loop`): a round for each two seconds of its timeout, and one more, since it
-- sleeps two seconds in each; the hypothesis `IsClock` says that a clock does not go back and that a
-- sleep takes its time. `CheckAll` counts its rounds, and needs no such hypothesis.
--
-- The hypotheses on `ufw` (`IsFirewall` and `IsNumberedFirewall`) say what its manual says of listing,
-- deleting by number and adding. A source that is added is listed in a form that is a parameter
-- (`as_listed`); what is proved of `OpenPort` is for desired sources that have that form. The tests have a machine for each on which they hold. Other tools
-- (systemctl, sshd, docker, nginx) need no hypothesis: the theorems hold whatever they answer.
--
-- Not modelled: the deployment and the files it writes, the reading of certificates, the enhanced
-- health checks, the diagnosis and the metrics, the requests for these, the command line, and the
-- websocket itself.
pub mod Backup
pub mod Base
pub mod Cleanup
pub mod Compose
pub mod Config
pub mod Daemon
pub mod Destroy
pub mod Docker
pub mod EnableTls
pub mod Handlers
pub mod Harden
pub mod Health
pub mod Host
pub mod Instance
pub mod Nginx
pub mod OpenPort
pub mod ResetVm
pub mod RotateCreds
pub mod SelfUpgrade
pub mod Stage
pub mod Tests
pub mod Types
pub mod Ufw
pub mod Upgrade
