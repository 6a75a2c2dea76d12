-- ===== src/Asgi/Protocol.antt =====
-- The order of the messages of a response: one start, then bodies, of which the last says that no
-- more follow.
use fastapi_chassis.Base.{ℕ, true, false, Option, none, some, List, [], ◌∷◌, ◌≡◌}
use fastapi_chassis.Asgi.{
  Sent, start, body, Delivery, message, disconnect, App, done, raise, receive, send, Failure,
  request_too_large, timeout_error, other, Ending, returned, raised, run,
}

pub data Phase : Type 0 where
  idle started finished : Phase

-- The phase after a message, if it may be sent.
unfoldable pub after : Phase → Sent → Option Phase
after idle (start _ _) = some started
after started (body _ true) = some started
after started (body _ false) = some finished
after _ _ = none

-- The message was allowed, and `P` holds of the phase after it.
abbrev pub Allowed : Option Phase → (Phase → Type 0) → Type 0
Allowed none P = ⊥
Allowed (some q) P = P q

-- Where an exception may be raised: that of a body which is too large only before the response has
-- started, any other one everywhere.
abbrev pub MayRaise : Phase → Failure → Type 0
MayRaise p request_too_large = p ≡ idle
MayRaise p timeout_error = Unit
MayRaise p (other _) = Unit

-- From a phase on, an application sends what it may send, returns only after a whole response, and
-- raises where it may.
abbrev pub Speaks : Phase → App → Type 0
Speaks p done = p ≡ finished
Speaks p (raise e) = MayRaise p e
Speaks p (receive k) = (d : Delivery) → Speaks p (k d)
Speaks p (send m app) = Allowed (after p m) (λ q. Speaks q app)

-- The phase after a list of messages.
abbrev pub then_phase : Option Phase → (Phase → Option Phase) → Option Phase
then_phase none f = none
then_phase (some q) f = f q

unfoldable pub phase_after : Phase → List Sent → Option Phase
phase_after p [] = some p
phase_after p (m ∷ ms) = then_phase (after p m) (λ q. phase_after q ms)

-- What an ended run of such an application sent: a whole response if it returned, and the beginning
-- of one if it raised.
abbrev pub IsResponse : Option Phase → Ending → Type 0
IsResponse none _ = ⊥
IsResponse (some p) returned = p ≡ finished
IsResponse (some p) (raised _) = Unit

pub run-IsResponse :
    (p : Phase) (ds : List Delivery) (app : App)
    → Speaks p app
    → IsResponse (phase_after p (run ds app).0) (run ds app).1
unfolding run phase_after
run-IsResponse p ds done h = h
run-IsResponse p ds (raise e) h = tt
run-IsResponse p [] (receive k) h =
    run-IsResponse p [] (k (message disconnect)) (h (message disconnect))
run-IsResponse p (d ∷ ds) (receive k) h = run-IsResponse p ds (k d) (h d)
run-IsResponse p ds (send m app) h = go (after p m) h (λ q. run-IsResponse q ds app)
  where
    go :
        (o : Option Phase)
        → Allowed o (λ q. Speaks q app)
        → ((q : Phase) → Speaks q app → IsResponse (phase_after q (run ds app).0) (run ds app).1)
        → IsResponse (then_phase o (λ q. phase_after q (run ds app).0)) (run ds app).1
    go none h ih = h
    go (some q) h ih = ih q h

pub Allowed_map :
    {P Q : Phase → Type 0} (o : Option Phase)
    → ((q : Phase) → P q → Q q)
    → Allowed o P
    → Allowed o Q
Allowed_map none f h = h
Allowed_map (some q) f h = f q h

-- The status of the first message, if it starts a response.
abbrev pub status_of : List Sent → Option ℕ
status_of [] = none
status_of (start status _ ∷ _) = some status
status_of (body _ _ ∷ _) = none
