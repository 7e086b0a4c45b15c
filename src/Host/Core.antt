-- ===== src/Host/Core.antt =====
-- Calls, replies, and the monad of programs that make calls and may return an error.
use vmkit_agent.Base.{
  arith, ℕ, String, ◌<>◌, Bool, true, false, not, Option, none, some, List, ◌∷◌, ◌≡◌,
}
use vmkit_agent.Base.{◌⊎◌, inl, inr, refl}

pub data Call : Type 0 where
  -- a command: its directory ("" for the agent's own), its time limit in seconds (0 for none),
  -- and its name with its arguments
  exec : String → ℕ → List String → Call
  geteuid : Call
  stat : String → Call
  mkdir_all : String → ℕ → Call
  write_file : String → String → ℕ → Call
  read_file : String → Call
  remove : String → Call
  rename : String → String → Call
  chmod : String → ℕ → Call
  read_dir : String → Call
  glob : String → Call
  -- the clock, formatted by the given layout
  now : String → Call
  -- milliseconds
  sleep : ℕ → Call
  executable : Call
  eval_symlinks : String → Call
  http_get : String → Call
  -- a file is opened for writing from its start; the body of the last answer is copied into it;
  -- it is closed
  create_file : String → ℕ → Call
  copy_body : String → Call
  close_file : String → Call
  -- a goroutine sleeps so many milliseconds and then starts a command
  start_later : ℕ → List String → Call
  -- two commands joined by a pipe: the pipe is made, each command is started and waited for
  stdout_pipe : List String → Call
  start : List String → Call
  wait : List String → Call
  -- a command that is given a text to read
  exec_input : List String → String → Call
  -- a file is opened, its size is asked for, and it is read to its end
  open_file : String → Call
  file_stat : String → Call
  read_opened : String → Call
  -- a request to upload a file is made and sent; the rest of an answer is read
  new_request : String → Call
  http_put : String → String → Call
  read_body : Call
  -- seconds since 1970; nanoseconds of the process's clock; the time since the operation began
  unix_time : Call
  clock : Call
  elapsed : Call
  remove_all : String → Call
  -- a command is looked for in the search path
  look_path : String → Call
  -- a compressed file that is open is read: its header, and then its text, as far as it goes
  gzip_reader : String → Call
  read_unzipped : String → Call

pub record DirEntry : Type 0 where
  pub name : String
  pub is_dir : Bool

-- An error with its text, or none, beside what the call returns. `not_exist` is the answer of
-- `os.IsNotExist` about the error.
pub record Reply : Type 0 where
  pub error : Option String
  pub not_exist : Bool
  pub output : String
  -- what a command writes to its standard error, where the program reads that apart
  pub errors : String
  pub number : ℕ
  pub entries : List DirEntry

-- The calls made, the latest first.
abbrev pub Trace : Type 0
Trace = List Call

abbrev pub Host : Type 0
Host = Call → Trace → Reply

pub data Outcome {ℓ} (A : Type ℓ) : Type ℓ where
  ok : A → Outcome A
  err : String → Outcome A

abbrev pub M : Type 0 → Type 0
M A = Host → Trace → Outcome A × Trace

abbrev pub after : {A B : Type 0} → Host → (A → M B) → Outcome A → Trace → Outcome B × Trace
after host f (ok a) w = f a host w
after host f (err e) w = (err e, w)

infixl 5 ◌>>=◌ ◌>>◌
abbrev pub ◌>>=◌ : {A B : Type 0} → M A → (A → M B) → M B
◌>>=◌ m f host w = let (r, w') = m host w in after host f r w'

abbrev pub ◌>>◌ : {A B : Type 0} → M A → M B → M B
m >> k = m >>= λ _. k

abbrev pub return : {A : Type 0} → A → M A
return a host w = (ok a, w)

abbrev pub of_outcome : {A : Type 0} → Outcome A → M A
of_outcome r host w = (r, w)

abbrev pub fail : {A : Type 0} → String → M A
fail e host w = (err e, w)

-- `if err != nil { return fmt.Errorf(...) }` on a test
abbrev pub ensure : Bool → String → M (Unit {0})
ensure true e = return tt
ensure false e = fail e

abbrev pub call : Call → M Reply
call c host w = (ok (host c w), c ∷ w)

abbrev pub succeeded : Reply → Bool
succeeded r = elim r.error [ none ↦ true | some e ↦ false ]

pub succeeded-none : (r : Reply) → succeeded r ≡ true → r.error ≡ none
succeeded-none r h = ground arith

abbrev pub error_text : Reply → String
error_text r = elim r.error [ none ↦ "" | some e ↦ e ]

-- A failed call ends the program with the text that `wrap` makes of its reply.
abbrev pub check : Reply → (Reply → String) → M Reply
check r wrap = elim r.error [ none ↦ return r | some e ↦ fail (wrap r) ]

abbrev pub require : Call → (Reply → String) → M Reply
require c wrap = do r ← call c; check r wrap

abbrev pub when : Bool → M (Unit {0}) → M (Unit {0})
when true m = m
when false m = return tt

-- The call is made and its error is dropped.
abbrev pub best_effort : Call → M (Unit {0})
best_effort c = do _ ← call c; return tt

-- `defer` of a call
abbrev pub finally : {A : Type 0} → Call → M A → M A
finally c m host w = let (r, w') = m host w in (r, c ∷ w')

-- A caller that looks at a program's error instead of returning it.
abbrev pub attempt : {A : Type 0} → M A → M (Outcome A)
attempt m host w = let (r, w') = m host w in (ok r, w')

abbrev under : {A : Type 0} → String → Outcome A → M A
under prefix (ok a) = return a
under prefix (err e) = fail (prefix <> e)

-- A program's error is returned with a text before it.
abbrev pub wrapped : {A : Type 0} → String → M A → M A
wrapped prefix m = do r ← attempt m; under prefix r

-- `if _, err := os.Stat(path); os.IsNotExist(err)`: no other error counts.
abbrev pub must_exist : String → String → M (Unit {0})
must_exist path e = do r ← call (stat path); ensure (not r.not_exist) e

-- `runCmd(timeout, name, args...)`, and `exec.Command(name, args...)` without a limit
abbrev pub cmd : ℕ → List String → Call
cmd limit argv = exec "" limit argv

abbrev pub message : String → Reply → String
message prefix r = prefix <> error_text r

pub Outcome-cases :
    {A : Type 0} (r : Outcome A) → ((a : A) × (r ≡ ok a)) ⊎ ((e : String) × (r ≡ err e))
Outcome-cases (ok a) = inl (a, refl)
Outcome-cases (err e) = inr (e, refl)

after-eq_ok :
    {A B : Type 0} (host : Host) (f : A → M B) (r : Outcome A) (w : Trace) {b : B}
    → (after host f r w).0 ≡ ok b
    → (a : A) × (r ≡ ok a) × (after host f r w ≡ f a host w)
after-eq_ok host f (ok a) w h = (a, refl, refl)
after-eq_ok host f (err e) w h = cc

-- A sequence that ends well is its second part, run on the value and the calls of the first.
pub bind-eq_ok :
    {A B : Type 0} (m : M A) (f : A → M B) (host : Host) (w : Trace) {b : B}
    → ((m >>= f) host w).0 ≡ ok b
    → (a : A) × ((m host w).0 ≡ ok a) × ((m >>= f) host w ≡ f a host (m host w).1)
bind-eq_ok m f host w h = after-eq_ok host f (m host w).0 (m host w).1 h

-- What holds of the calls of a program, and of those of what follows each value of it, holds of
-- the calls of both.
pub after-keeps :
    {A B : Type 0} (P : Trace → Type 0) (host : Host) (f : A → M B) (o : Outcome A) (w : Trace)
    → P w
    → ((a : A) → P (f a host w).1)
    → P (after host f o w).1
after-keeps P host f (ok a) w h next = next a
after-keeps P host f (err e) w h next = h
