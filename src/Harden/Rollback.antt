-- ===== src/Harden/Rollback.antt =====
-- `rollback`: the calls that put the machine back, and the account of those that worked.
use vmkit_agent.Base.{
  String, ◌<>◌, Bool, true, false, Option, none, some, List, [], ◌∷◌, ◌++◌, starts_with, join,
  if◌then◌else◌,
}
use vmkit_agent.Host.{
  Call, stat, remove, read_dir, DirEntry, Reply, M, ◌>>=◌, ◌>>◌, return, call, best_effort,
  succeeded, cmd,
}
use vmkit_agent.Harden.Config.{HardenResult, backup_dir, sshd_config_file}

-- The loop from the last entry down to the first: the last one with the prefix.
unfoldable pub latest_backup : List DirEntry → Option String
latest_backup [] = none
latest_backup (e ∷ es) = elim (latest_backup es) [
  | some path ↦ some path
  | none ↦ if starts_with e.name "sshd_config." then some (backup_dir <> "/" <> e.name) else none
]

-- `if runCmd(...) == nil { rollbackSteps = append(rollbackSteps, note) }`
abbrev note_if : Call → String → List String → M (List String)
note_if c note steps = do r ← call c; return (if succeeded r then steps ++ note ∷ [] else steps)

restore_config : Option String → List String → M (List String)
restore_config none steps = return steps
restore_config (some path) steps =
    note_if (cmd 10 ("cp" ∷ "-f" ∷ path ∷ "/etc/ssh/sshd_config" ∷ []))
      "Restored /etc/ssh/sshd_config" steps

-- The error of `os.Remove` is dropped, and the note is made whether it worked or not.
drop_config : Bool → List String → M (List String)
drop_config true steps = do
  best_effort (remove sshd_config_file)
  return (steps ++ ("Removed " <> sshd_config_file) ∷ [])
drop_config false steps = return steps

remove_config : List String → M (List String)
remove_config steps = do found ← call (stat sshd_config_file); drop_config (succeeded found) steps

restore_socket : Bool → List String → M (List String)
restore_socket true steps =
    note_if (cmd 15 ("systemctl" ∷ "start" ∷ "ssh.socket" ∷ [])) "Restored SSH socket activation"
      steps
restore_socket false steps = do
  best_effort (cmd 30 ("systemctl" ∷ "stop" ∷ "sshd" ∷ []))
  best_effort (cmd 15 ("systemctl" ∷ "enable" ∷ "sshd.socket" ∷ []))
  note_if (cmd 15 ("systemctl" ∷ "start" ∷ "sshd.socket" ∷ []))
      "Restored SSH socket activation (sshd)" steps

details : List String → String
details [] = "Rollback attempted but no steps could be completed"
details (s ∷ steps) = "Rollback completed: " <> join "; " (s ∷ steps)

-- everything after the backup directory has been read
restore_all : List DirEntry → M (List String)
restore_all entries = do
  restored ← restore_config (latest_backup entries) []
  removed ← remove_config restored
  enabled ←
      note_if (cmd 15 ("systemctl" ∷ "enable" ∷ "ssh.socket" ∷ []))
        "Re-enabled SSH socket activation" removed
  stopped ← call (cmd 30 ("systemctl" ∷ "stop" ∷ "ssh" ∷ []))
  started ← restore_socket (succeeded stopped) enabled
  note_if (cmd 15 ("ufw" ∷ "--force" ∷ "disable" ∷ [])) "Disabled UFW firewall" started

unfoldable pub restore_if : Reply → M String
unfolding latest_backup restore_config drop_config remove_config restore_socket details restore_all
restore_if files = elim files.error [
  | some e ↦ return ("Failed to read backup directory: " <> e)
  | none ↦ do steps ← restore_all files.entries; return (details steps)
]

unfoldable pub rollback : HardenResult → M HardenResult
rollback result = do
  files ← call (read_dir backup_dir)
  text ← restore_if files
  return (record result { rollback_applied = true; rollback_details = text })
