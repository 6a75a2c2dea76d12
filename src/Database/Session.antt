-- ===== src/Database/Session.antt =====
-- `session_scope` of src/app/db/engine.py and `get_db_session` of src/app/db/session.py, as asynchronous
-- generators. The framework resumes a dependency that yields when the handler returned, and throws the
-- handler's exception into it when the handler raised. Entering and closing a session are parameters.
use fastapi_chassis.Base.{List, [], ◌∷◌, Option, none, some, ◌≡◌, refl}
use fastapi_chassis.Outcome.{Exn, Outcome, returned, raised}

-- A session is opened and closed; a generator that is abandoned is left at its `yield`, and what stands after it is done
-- when the event loop finalizes the generator, not before the dependency ends.
pub data Event : Type 0 where
  opened closed abandoned : Event

-- A generator ends, or records an event, or yields and is resumed, with an exception or without.
pub data Generator (A : Type 0) : Type 0 where
  ended : Outcome (Unit {0}) → Generator A
  doing : Event → Generator A → Generator A
  yields : A → (Option Exn → Generator A) → Generator A

-- the end of `async with`, where closing may raise
abbrev pub on_exit : Option Exn → Outcome (Unit {0}) → Outcome (Unit {0})
on_exit none close = close
on_exit (some e) (returned _) = raised e
on_exit (some e) (raised f) = raised f

abbrev pub thrown_by : Outcome (Unit {0}) → Option Exn
thrown_by (returned _) = none
thrown_by (raised e) = some e

module _ {Session : Type 0} (close : Outcome (Unit {0})) where
  unfoldable pub session_scope : Outcome Session → Generator Session
  session_scope (raised e) = ended (raised e)
  session_scope (returned session) =
      doing opened (yields session (λ thrown. doing closed (ended (on_exit thrown close))))

  -- `async for session in generator: yield session`. An exception that is thrown in at the `yield` ends the loop, and
  -- `async for` does not close the generator that it runs over.
  unfoldable pub relay : Generator Session → Generator Session
  relay (ended o) = ended o
  relay (doing event g) = doing event (relay g)
  relay (yields a resume) = yields a (λ thrown. relayed (relay (resume none)) thrown)
    where
      relayed : Generator Session → Option Exn → Generator Session
      relayed g none = g
      relayed g (some e) = doing abandoned (ended (raised e))

  unfoldable pub get_db_session : Outcome Session → Generator Session
  unfolding session_scope relay
  get_db_session enter = relay (session_scope enter)

  -- The events and the end of a dependency round a handler.
  unfoldable pub drive :
      (Session → Outcome (Unit {0})) → Generator Session → List Event × Outcome (Unit {0})
  drive handler (ended o) = ([], o)
  drive handler (doing event g) = let (events, o) = drive handler g in (event ∷ events, o)
  drive handler (yields a resume) = drive handler (resume (thrown_by (handler a)))

  -- A request whose handler returns has its session closed when the dependency ends, and a failure to close goes up. If the
  -- handler raises, the dependency ends with that exception while the session is still open: `session_scope` alone
  -- would have closed it.
  pub get_db_session_cases :
      (session : Session) (handler : Session → Outcome (Unit {0}))
      → (handler session ≡ returned tt
          → drive handler (get_db_session (returned session)) ≡ (opened ∷ closed ∷ [], close))
        × ((e : Exn)
            → handler session ≡ raised e
            → (drive handler (get_db_session (returned session))
                ≡ (opened ∷ abandoned ∷ [], raised e))
              × (drive handler (session_scope (returned session))
                  ≡ (opened ∷ closed ∷ [], on_exit (some e) close)))
  unfolding get_db_session drive
  get_db_session_cases session handler = (λ h. rw h refl, λ e h. (rw h refl, rw h refl))
