-- ===== src/Daemon/Token.antt =====
-- The tokens on the disk.
use vmkit_agent.Base.{
  String, Bool, true, false, not, ◌&&◌, Option, none, some, [], ◌∷◌, ◌≡◌, refl, ◌==ₛ◌, arith,
  eq_iff, is_empty, trim_space, if◌then◌else◌,
}
use vmkit_agent.Host.{Call, read_file, write_file, remove, Host, Trace, Outcome, ok, err, succeeded}
use vmkit_agent.Host.Log.{done, guarded}
use vmkit_agent.Daemon.{
  Daemon, RpcError, Welcome, WelcomeResult, read_token, bootstrap_token, rotate_token, take_token,
  welcomed, answered, recv_welcome,
}

abbrev pub removes : String → Call → Bool
removes path (remove p) = p ==ₛ path
removes path _ = false

abbrev pub writes : String → Call → Bool
writes path (write_file p content mode) = p ==ₛ path
writes path _ = false

welcomed-guarded :
    (d : Daemon) (result : Option (Option WelcomeResult)) (host : Host)
    → guarded
        (removes d.bootstrap_path)
        (done host (writes d.session_path))
        (welcomed d result host []).1
      ≡ true
unfolding rotate_token take_token welcomed
welcomed-guarded d none host = refl
welcomed-guarded d (some none) host = refl
welcomed-guarded d (some (some r)) host = ground (arith, eq_iff d.session_path d.session_path)

answered-guarded :
    (d : Daemon) (e : Option RpcError) (result : Option (Option WelcomeResult)) (host : Host)
    → guarded
        (removes d.bootstrap_path)
        (done host (writes d.session_path))
        (answered d e result host []).1
      ≡ true
unfolding answered
answered-guarded d (some e) result host = refl
answered-guarded d none result host = welcomed-guarded d result host

-- Whatever the gateway answers and the host does: the bootstrap token is removed only when the
-- session token has been written.
pub recv_welcome-guarded :
    (d : Daemon) (frame : Outcome (Option Welcome)) (host : Host)
    → guarded
        (removes d.bootstrap_path)
        (done host (writes d.session_path))
        (recv_welcome d frame host []).1
      ≡ true
unfolding recv_welcome
recv_welcome-guarded d (err e) host = refl
recv_welcome-guarded d (ok none) host = refl
recv_welcome-guarded d (ok (some frame)) host = answered-guarded d frame.error frame.result host

-- What a token file gives: nothing if it cannot be read or is empty.
abbrev pub token_of : Host → Trace → String → Option String
token_of host w path =
    let r = host (read_file path) w in
    if succeeded r && not (is_empty r.output) then some (trim_space r.output) else none

abbrev pub first_of : Option String → Option String → Option String
first_of (some a) b = some a
first_of none b = b

abbrev pub Gives : Outcome String → Option String → Type 0
Gives (ok t) o = o ≡ some t
Gives (err e) o = o ≡ none

-- The token is that of the session file, if it is there and not empty, or else that of the bootstrap
-- file; there is an error exactly when neither gives one.
pub read_token-Gives :
    (d : Daemon) (host : Host)
    → Gives (read_token d host []).0 (
        first_of
          (token_of host [] d.session_path)
          (token_of host (read_file d.session_path ∷ []) d.bootstrap_path))
unfolding read_token bootstrap_token
read_token-Gives d host = ground arith
