-- ===== src/Daemon/Session.antt =====
-- All connections of a daemon, one after the other: what the reader, the handlers, the heartbeat
-- and the writer do with the queue of outgoing messages, one step at a time and in any order. The
-- queue and the table of waiting calls are made once, in `New`, and `Run` connects again with the
-- same ones: a handler of a lost connection still puts its answer in the queue, and the next
-- connection writes what the last one left there.
use vmkit_agent.Base.{
  ℕ, ◌+◌, ◌≤◌, String, Bool, true, false, not, ◌&&◌, ◌||◌, is_empty, Option, none, some, List, [],
  ◌∷◌, ◌++◌, ◌≡◌, refl, ◌==ₛ◌, arith, if◌then◌else◌,
}
use vmkit_agent.Daemon.{
  Frame, Action, reply_to, request, notification, nothing, dispatch, HandlerReply, value,
  unwritable, failed, Message, response, heartbeat, handle_request, send, registered,
}

-- The queue, what was written, the requests whose handlers run, and the identifiers of the calls
-- that wait for an answer.
pub record Session : Type 0 where
  pub queue : List Message
  pub sent : List Message
  pub running : List (String × String)
  pub pending : List String

abbrev pub without : String → List String → List String
without id [] = []
without id (p ∷ ps) = let rest = without id ps in if p ==ₛ id then rest else p ∷ rest

unfoldable pub act : Action → Session → Session
act (reply_to id) s = record s { pending = without id s.pending }
act (request method params id) s = record s { running = (method, id) ∷ s.running }
act (notification method params) s = s
act nothing s = s

abbrev is_some : {A : Type 0} → Option A → Bool
is_some none = false
is_some (some a) = true

-- There is a handler for the method.
abbrev is_registered : String → List String → Bool
is_registered method [] = false
is_registered method (m ∷ ms) = m ==ₛ method || is_registered method ms

pub data Event : Type 0 where
  received : Frame → Event
  finished : String → Option HandlerReply → String → Event
  wrote : Event
  lost : Event
  beat : Event
  reconnected : Event

pub data SessionStep : Session → Event → Session → Type 0 where
  reads : {s : Session} (f : Frame) → SessionStep s (received f) (act (dispatch f) s)
  -- A handler replies, or there is none for the method; `handleRequest` sends one answer on each
  -- path.
  replies :
      {queue sent : List Message} {pending : List String} (before after : List (String × String))
      (method id : String) (reply : Option HandlerReply)
      → is_some reply ≡ is_registered method registered
      → SessionStep
          (record {
            queue = queue;
            sent = sent;
            running = before ++ (method, id) ∷ after;
            pending = pending;
          })
          (finished method reply id)
          (record {
            queue = send (handle_request method reply id) queue;
            sent = sent;
            running = before ++ after;
            pending = pending;
          })
  writes :
      {queue sent : List Message} {running : List (String × String)} {pending : List String}
      (m : Message)
      → SessionStep
          (record { queue = m ∷ queue; sent = sent; running = running; pending = pending })
          wrote
          (record { queue = queue; sent = sent ++ m ∷ []; running = running; pending = pending })
  -- The writer has taken the message, and writing it fails: the message is gone.
  loses :
      {queue sent : List Message} {running : List (String × String)} {pending : List String}
      (m : Message)
      → SessionStep
          (record { queue = m ∷ queue; sent = sent; running = running; pending = pending })
          lost
          (record { queue = queue; sent = sent; running = running; pending = pending })
  -- The connection ends and the next one is welcomed: nothing of this state is made anew.
  reconnects : {s : Session} → SessionStep s reconnected s
  beats : {s : Session} → SessionStep s beat (record s { queue = send heartbeat s.queue })

-- What `New` makes, once for all connections, and what comes of it, with the events that led to
-- them, the latest first.
pub data Reached : List Event → Session → Type 0 where
  opened : Reached [] (record { queue = []; sent = []; running = []; pending = [] })
  next :
      {es : List Event} {s t : Session} {e : Event}
      → Reached es s
      → SessionStep s e t
      → Reached (e ∷ es) t

abbrev pub answers : String → Message → ℕ
answers id (response id' result error) = if id' ==ₛ id then 1 else 0
answers id heartbeat = 0

abbrev pub count_answers : String → List Message → ℕ
count_answers id [] = 0
count_answers id (m ∷ ms) = answers id m + count_answers id ms

abbrev pub count_running : String → List (String × String) → ℕ
count_running id [] = 0
count_running id ((method, id') ∷ rs) = (if id' ==ₛ id then 1 else 0) + count_running id rs

abbrev asks : String → Action → ℕ
asks id (request method params id') = if id' ==ₛ id then 1 else 0
asks id (reply_to id') = 0
asks id (notification method params) = 0
asks id nothing = 0

-- Read from the frame itself: it has a method and this identifier.
abbrev requests : String → Frame → ℕ
requests id f = elim f.id [
  | some id' ↦ if not (is_empty f.method) && (id' ==ₛ id) then 1 else 0
  | none ↦ 0
]

asks-dispatch : (id : String) (f : Frame) → asks id (dispatch f) ≡ requests id f
unfolding dispatch
asks-dispatch id f = ground arith

abbrev asked : String → Event → ℕ
asked id (received f) = requests id f
asked id (finished method reply id') = 0
asked id wrote = 0
asked id lost = 0
asked id reconnected = 0
asked id beat = 0

-- How many requests with this identifier came in.
abbrev pub count_requests : String → List Event → ℕ
count_requests id [] = 0
count_requests id (e ∷ es) = asked id e + count_requests id es

count_answers-append :
    (id : String) (xs ys : List Message)
    → count_answers id (xs ++ ys) ≡ count_answers id xs + count_answers id ys
count_answers-append id [] ys = omega arith
count_answers-append id (x ∷ xs) ys = omega (arith, count_answers-append id xs ys)

count_running-append :
    (id : String) (xs ys : List (String × String))
    → count_running id (xs ++ ys) ≡ count_running id xs + count_running id ys
count_running-append id [] ys = omega arith
count_running-append id (x ∷ xs) ys = omega (arith, count_running-append id xs ys)

count_answers-send :
    (id : String) (m : Message) (q : List Message)
    → count_answers id (send m q) ≤ count_answers id q + answers id m
unfolding send
count_answers-send id m q = ground (arith, count_answers-append id q (m ∷ []))

answers-handle_request :
    (id method id' : String) (reply : Option HandlerReply)
    → answers id (handle_request method reply id') ≡ (if id' ==ₛ id then 1 else 0)
unfolding handle_request
answers-handle_request id method id' none = refl
answers-handle_request id method id' (some (value v)) = refl
answers-handle_request id method id' (some unwritable) = refl
answers-handle_request id method id' (some (failed e)) = refl

-- The answers that wait or were written, and the requests whose handlers run.
abbrev pub accounted : String → Session → ℕ
accounted id s = count_answers id s.queue + count_answers id s.sent + count_running id s.running

accounted-act :
    (id : String) (a : Action) (s : Session) → accounted id (act a s) ≡ asks id a + accounted id s
unfolding act
accounted-act id (reply_to id') s = omega arith
accounted-act id (request method params id') s = omega arith
accounted-act id (notification method params) s = omega arith
accounted-act id nothing s = omega arith

SessionStep-accounted :
    {s t : Session} {e : Event} (id : String)
    → SessionStep s e t
    → accounted id t ≤ asked id e + accounted id s
SessionStep-accounted id (reads {s} f) =
    omega (arith, accounted-act id (dispatch f) s, asks-dispatch id f)
SessionStep-accounted id (replies {queue} before after method id' reply e) = omega (
  arith,
  count_running-append id before after,
  count_running-append id before ((method, id') ∷ after),
  count_answers-send id (handle_request method reply id') queue,
  answers-handle_request id method id' reply,
)
SessionStep-accounted id (writes {queue} {sent} m) =
    omega (arith, count_answers-append id sent (m ∷ []))
SessionStep-accounted id (loses m) = omega arith
SessionStep-accounted id reconnects = omega arith
SessionStep-accounted id (beats {s}) = omega (arith, count_answers-send id heartbeat s.queue)

-- Over all connections of the daemon, however the reader, the handlers and the writer take turns
-- and whatever is lost: for each identifier, the answers that wait or were written, and the
-- requests still with a handler, are together no more than the frames that came in with a method
-- and this identifier. So no request is answered twice, and no identifier is answered that no
-- request had.
pub Reached-accounted :
    {es : List Event} {s : Session} (id : String)
    → Reached es s
    → accounted id s ≤ count_requests id es
Reached-accounted id opened = omega arith
Reached-accounted id (next r s) = omega (arith, SessionStep-accounted id s, Reached-accounted id r)
