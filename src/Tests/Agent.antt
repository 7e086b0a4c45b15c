-- ===== src/Tests/Agent.antt =====
-- The daemon and its upgrade on concrete machines.
use vmkit_agent.Base.{◌≤◌, String, true, false, Option, none, some, [], ◌∷◌, ◌≡◌, refl}
use vmkit_agent.Host.{Host, Outcome, ok}
use vmkit_agent.Host.Log.{guarded, done}
use vmkit_agent.Tests.Machines.{reply, failing, willing}
use vmkit_agent.SelfUpgrade.{
  UpgradeConfig, UpgradeResult, run, upgrade, upgraded, replace_all, exec_path_of, replace_binary,
  or_remove, cleaned, download,
}
use vmkit_agent.SelfUpgrade.Verified.{run-verified_first, verified, replaces}
use vmkit_agent.SelfUpgrade.Tidy.{run-replaced_first, run-tidy, restarts, tidy, swaps, running_path}
use vmkit_agent.Daemon.{
  Daemon, Frame, Welcome, value, Message, response, recv_welcome, read_token, send, handle_request,
  dispatch, registered,
}
use vmkit_agent.Daemon.Token.{
  removes, writes, recv_welcome-guarded, Gives, first_of, token_of, read_token-Gives,
}
use vmkit_agent.Daemon.Retry.{
  Runs, begun, then_step, lost, elapsed, trying, InBounds, Runs-InBounds,
}
use vmkit_agent.Daemon.Session.{
  Session, Reached, opened, next, reads, replies, received, finished, accounted, count_requests,
  Reached-accounted, act,
}

abbrev newer : UpgradeConfig
newer = record {
  binary_url = "https://example.org/agent-{arch}";
  sha256 = "AB";
  version = "";
  service = "";
}

abbrev digest : String → String
digest body = "ab"

-- The download works, and what comes is empty.
abbrev empty_body : Host
empty_body c w = record reply { number = 200 }

run-verified_first_example :
    guarded replaces
      (verified "amd64" digest newer willing)
      (run "amd64" digest newer "1.0" "" willing []).1
    ≡ true
run-verified_first_example = run-verified_first "amd64" digest newer willing "" "1.0"

run-replaced_first_example :
    guarded restarts
      (done willing (swaps (running_path willing "")))
      (run "amd64" digest newer "1.0" "" willing []).1
    ≡ true
run-replaced_first_example = run-replaced_first "amd64" digest newer willing "" "1.0"

no_answer : Host
no_answer c w = failing "no route to host"

abbrev not_upgraded : UpgradeResult
not_upgraded = record {
  success = false;
  old_version = "1.0";
  new_version = "";
  binary_url = "https://example.org/agent-amd64";
  note = "";
  error = "download https://example.org/agent-amd64: no route to host";
}

unreachable : (run "amd64" digest newer "1.0" "/opt/agent" no_answer []).0 ≡ ok not_upgraded
unfolding run upgrade upgraded replace_all exec_path_of replace_binary or_remove cleaned download
    no_answer
unreachable = refl

run-tidy_example :
    tidy "/opt/agent" (run "amd64" digest newer "1.0" "/opt/agent" no_answer []).1 ≡ true
run-tidy_example = run-tidy "amd64" digest newer no_answer "/opt/agent" "1.0" unreachable refl

abbrev agent : Daemon
agent = record {
  instance_id = "i-1";
  session_path = "/run/session";
  bootstrap_path = "/run/bootstrap";
}

abbrev welcome : Outcome (Option Welcome)
welcome = ok (
    some (record {
      result = some (some (record { session_id = "s-1"; session_token = some "t-1" }));
      error = none;
    }))

recv_welcome-guarded_example :
    guarded
      (removes "/run/bootstrap")
      (done willing (writes "/run/session"))
      (recv_welcome agent welcome willing []).1
    ≡ true
recv_welcome-guarded_example = recv_welcome-guarded agent welcome willing

read_token-Gives_example :
    Gives
      (read_token agent willing []).0
      (first_of (token_of willing [] "/run/session") (token_of willing [] "/run/bootstrap"))
read_token-Gives_example = read_token-Gives agent willing

after_loss : Runs (trying 2)
after_loss = then_step (then_step begun lost) elapsed

Runs-InBounds_example : InBounds (trying 2)
Runs-InBounds_example = Runs-InBounds after_loss

abbrev asking : Frame
asking = record { method = "vm.harden"; params = "{}"; id = some "7" }

abbrev busy : Session
busy = record { queue = []; sent = []; running = ("vm.harden", "7") ∷ []; pending = [] }

with_request : Reached (received asking ∷ []) busy
unfolding act dispatch
with_request = next opened (reads asking)

abbrev answer : Message
answer = response "7" (some "{}") none

abbrev with_answer : Session
with_answer = record { queue = answer ∷ []; sent = []; running = []; pending = [] }

reached : Reached (finished "vm.harden" (some (value "{}")) "7" ∷ received asking ∷ []) with_answer
unfolding send handle_request registered
reached = next with_request (replies [] [] "vm.harden" "7" (some (value "{}")) refl)

Reached-accounted_example :
    accounted "7" with_answer
    ≤ count_requests "7" (finished "vm.harden" (some (value "{}")) "7" ∷ received asking ∷ [])
Reached-accounted_example = Reached-accounted "7" reached
