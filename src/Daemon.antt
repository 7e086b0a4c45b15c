-- ===== src/Daemon.antt =====
-- internal/daemon/daemon.go: the connection to the gateway. JSON is taken as read and written: a frame
-- stands for its text, and `none` for a text that is no frame.
pub mod Token
pub mod Retry
pub mod Session
use vmkit_agent.Base.{
  ℕ, String, ◌<>◌, Bool, true, false, not, ◌&&◌, ◌||◌, Option, none, some, List, [], ◌∷◌, ◌++◌,
  ◌==ₛ◌, ltb, length, is_empty, trim_space, ℤ, pos, negsuc, show_int, if◌then◌else◌,
}
use vmkit_agent.Host.{
  Call, read_file, write_file, remove, Reply, Outcome, ok, err, M, ◌>>=◌, ◌>>◌, return, fail,
  ensure, call, require, best_effort, attempt, succeeded, message,
}

pub record RpcError : Type 0 where
  pub code : ℤ
  pub text : String

-- The answer to the hello: its result, if there is one, is a session and perhaps a token for it, or
-- `none` if it is no welcome.
pub record WelcomeResult : Type 0 where
  pub session_id : String
  pub session_token : Option String

pub record Welcome : Type 0 where
  pub result : Option (Option WelcomeResult)
  pub error : Option RpcError

pub record Daemon : Type 0 where
  pub instance_id : String
  pub session_path : String
  pub bootstrap_path : String

-- The bootstrap token, where no session token is there
bootstrap_token : Daemon → M String
bootstrap_token d = do
  r ← require (read_file d.bootstrap_path) (λ r.
      "no token available: cannot read bootstrap (" <> d.bootstrap_path <> ") or session ("
      <> d.session_path <> ")")
  ensure (not (is_empty r.output)) ("bootstrap token file is empty: " <> d.bootstrap_path)
  return (trim_space r.output)

unfoldable pub read_token : Daemon → M String
unfolding bootstrap_token
read_token d = do
  r ← call (read_file d.session_path)
  (if succeeded r && not (is_empty r.output)
      then return (trim_space r.output)
      else bootstrap_token d)

unfoldable pub rotate_token : Daemon → String → M (Unit {0})
rotate_token d token = do
  require (write_file d.session_path token 0o600) (message "write session file: ")
  best_effort (remove d.bootstrap_path)

-- A token that cannot be written is reported in the log only.
take_token : Daemon → Option String → M (Unit {0})
take_token d none = return tt
take_token d (some token) = do _ ← attempt (rotate_token d token); return tt

welcomed : Daemon → Option (Option WelcomeResult) → M (Unit {0})
welcomed d none = fail "welcome missing result"
welcomed d (some none) = fail "unmarshal welcome result"
welcomed d (some (some r)) = take_token d r.session_token

answered : Daemon → Option RpcError → Option (Option WelcomeResult) → M (Unit {0})
answered d (some e) result = fail ("welcome error " <> show_int e.code <> ": " <> e.text)
answered d none result = welcomed d result

-- `recvWelcome`, on the frame that was read
unfoldable pub recv_welcome : Daemon → Outcome (Option Welcome) → M (Unit {0})
unfolding take_token welcomed answered
recv_welcome d (err e) = fail ("read welcome: " <> e)
recv_welcome d (ok none) = fail "unmarshal welcome"
recv_welcome d (ok (some frame)) = answered d frame.error frame.result

-- What comes in: a frame's method ("" if it has none), its parameters and its identifier.
pub record Frame : Type 0 where
  pub method : String
  pub params : String
  pub id : Option String

pub data Action : Type 0 where
  reply_to : String → Action
  request : String → String → String → Action
  notification : String → String → Action
  nothing : Action

-- The switch of `readLoop`
unfoldable pub dispatch : Frame → Action
dispatch f = elim f.id [
  | some id ↦ if is_empty f.method then reply_to id else request f.method f.params id
  | none ↦ if is_empty f.method then nothing else notification f.method f.params
]

-- What a handler gives back: a value as JSON, a value that JSON cannot write, or an error.
pub data HandlerReply : Type 0 where
  value : String → HandlerReply
  unwritable : HandlerReply
  failed : String → HandlerReply

-- What goes out
pub data Message : Type 0 where
  response : String → Option String → Option RpcError → Message
  heartbeat : Message

abbrev pub refused : String → ℤ → String → Message
refused id code text = response id none (some (record { code = code; text = text }))

-- `handleRequest`: the reply is `none` if no handler is registered for the method.
unfoldable pub handle_request : String → Option HandlerReply → String → Message
handle_request method none id = refused id (negsuc 32600) ("method not found: " <> method)
handle_request method (some (failed e)) id = refused id (negsuc 31999) e
handle_request method (some unwritable) id = refused id (negsuc 32602) "failed to marshal result"
handle_request method (some (value v)) id = response id (some v) none

-- `sendResponse` and the heartbeat: a message is dropped if 64 are waiting.
unfoldable pub send : Message → List Message → List Message
send m queue = if ltb (length queue) 64 then queue ++ m ∷ [] else queue

-- `RegisterAll`
unfoldable pub registered : List String
registered =
    "health.check" ∷ "vm.harden" ∷ "vm.openport" ∷ "vm.upgrade" ∷ "vm.diagnose" ∷ "kamal.deploy"
    ∷ "tls.issue" ∷ "creds.rotate" ∷ "logs.fetch" ∷ "metrics.collect" ∷ "containers.stop" ∷ []
