-- ===== src/Lifespan/Release.antt =====
-- What src/app/lifespan.py releases, and when it does not.
use fastapi_chassis.Base.{Bool, Option, none, some, List, [], ◌∷◌, ◌++◌, if◌then◌else◌, ◌≡◌}
use fastapi_chassis.Outcome.{Exn, Outcome, returned, raised}
use fastapi_chassis.Settings.Fields.{Settings}
use fastapi_chassis.Lifespan.{
  Event, engine_created, client_created, store_created, ping_answered, ping_failed,
  startup_complete, store_closed, client_closed, engine_disposed, Trace, and_then, with_finally,
}

pub data Resource : Type 0 where
  engine client store : Resource

-- What is held after an event: only the resource that was acquired last may be released.
abbrev after_event : Event → List Resource → Option (List Resource)
after_event engine_created held = some (engine ∷ held)
after_event client_created held = some (client ∷ held)
after_event store_created held = some (store ∷ held)
after_event store_closed (store ∷ held) = some held
after_event client_closed (client ∷ held) = some held
after_event engine_disposed (engine ∷ held) = some held
after_event ping_answered held = some held
after_event ping_failed held = some held
after_event startup_complete held = some held
after_event _ _ = none

abbrev then_held :
    Option (List Resource) → (List Resource → Option (List Resource)) → Option (List Resource)
then_held none f = none
then_held (some held) f = f held

-- What is held at the end of a trace; `none` if something was released that was not acquired last.
abbrev pub held_after : List Event → List Resource → Option (List Resource)
held_after [] held = some held
held_after (e ∷ es) held = then_held (after_event e held) (held_after es)

-- What an application holds while it serves.
abbrev pub serving_with : Bool → List Resource
serving_with caching = (if caching then store ∷ [] else []) ++ (client ∷ engine ∷ [])

-- A trace keeps to the order of release from what is held before, and holds `after` at its end if it returns.
abbrev Leads : List Resource → Trace → List Resource → Type 0
Leads before (events, returned _) after = held_after events before ≡ some after
Leads before (events, raised e) after =
    (held : List Resource) × (held_after events before ≡ some held)

-- A start, and a stop that a `finally` part does.
abbrev IsLife : List Resource → Outcome (Unit {0}) → Trace → Trace → Type 0
IsLife a o t u =
    ((held : List Resource) × (held_after (and_then t (with_finally o u)).0 a ≡ some held))
    × ((e : Exn) → t.1 ≡ raised e → and_then t (with_finally o u) ≡ t)
    × (t.1 ≡ returned tt
        → u.1 ≡ returned tt
        → (held_after (and_then t (with_finally o u)).0 a ≡ some [])
          × ((and_then t (with_finally o u)).1 ≡ o))
