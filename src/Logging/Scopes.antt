-- ===== src/Logging/Scopes.antt =====
-- What the records of a program of requests carry: src/app/middleware/request_id.py sets the context round each
-- request, and the filter of src/app/log_config/filters.py reads it for each record.
use fastapi_chassis.Base.{String, List, [], ◌∷◌, ◌++◌, ◌≡◌, refl, ap, ◌∙◌}
use fastapi_chassis.Outcome.{Exn, Outcome, returned, raised}
use fastapi_chassis.Logging.Context.{
  Context, get_request_id, get_correlation_id, set_request_context, reset_request_context,
}
use fastapi_chassis.Logging.Filters.{LogRecord, add_request_context, kept}

-- What runs in one context: it logs a record, or serves a request and goes on if that returned, or raises.
pub data Work : Type 0 where
  finished : Work
  failing : Exn → Work
  logging : LogRecord → Work → Work
  serving : String → String → Work → Work → Work

-- The records that come out, and how it ends.
abbrev pub Logged : Type 0
Logged = List LogRecord × Outcome (Unit {0})

abbrev pub then_logged : Logged → Logged → Logged
then_logged (ls, returned _) (ms, outcome) = (ls ++ ms, outcome)
then_logged (ls, raised e) _ = (ls, raised e)

-- the rest, from the context that the request left, if it returned
abbrev pub go_on : Context × Logged → (Context → Context × Logged) → Context × Logged
go_on (c, (ls, returned _)) rest =
    let (d, later) = rest c in (d, then_logged (ls, returned tt) later)
go_on (c, (ls, raised e)) rest = (c, (ls, raised e))

-- Run with the two context variables; `finally` resets them however the request ends.
unfoldable pub run : Work → Context → Context × Logged
unfolding set_request_context reset_request_context add_request_context
run finished c = (c, ([], returned tt))
run (failing e) c = (c, ([], raised e))
run (logging log rest) c =
    let (d, (ls, outcome)) = run rest c in (d, ((add_request_context c log).0 ∷ ls, outcome))
run (serving request_id correlation_id app rest) c =
    let (inside, tokens) = set_request_context request_id correlation_id c in
    let (left, logged) = run app inside in
    go_on (reset_request_context tokens left, logged) (run rest)

-- The same without a context: each record gets the identifiers of the request that it stands in.
unfoldable pub scoped : Work → String → String → Logged
scoped finished r c = ([], returned tt)
scoped (failing e) r c = ([], raised e)
scoped (logging log rest) r c =
    let (ls, outcome) = scoped rest r c in
    (
      record log { request_id = kept log.request_id r; correlation_id = kept log.correlation_id c }
          ∷ ls,
      outcome,
    )
scoped (serving request_id correlation_id app rest) r c =
    then_logged (scoped app request_id correlation_id) (scoped rest r c)

-- Whatever runs, requests inside requests and errors included, every record comes out with the identifiers of the
-- innermost request that it was logged in, "-" outside of all, but for those that it was given; and at the end the context is
-- what it was at the start.
pub run-eq-scoped :
    (w : Work) (c : Context) → run w c ≡ (c, scoped w (get_request_id c) (get_correlation_id c))
unfolding run scoped set_request_context add_request_context get_request_id get_correlation_id
run-eq-scoped finished c = refl
run-eq-scoped (failing e) c = refl
run-eq-scoped (logging log rest) c =
    ap (λ o. (o.0, ((add_request_context c log).0 ∷ o.1.0, o.1.1))) (run-eq-scoped rest c)
run-eq-scoped (serving r d app rest) c =
    let inside = (set_request_context r d c).0 in
    ap (λ o. go_on (c, o.1) (run rest)) (run-eq-scoped app inside)
    ∙ go_on_lem (scoped app r d) c rest (run-eq-scoped rest c)
  where
    go_on_lem :
        (l : Logged) (c : Context) (rest : Work)
        → run rest c ≡ (c, scoped rest (get_request_id c) (get_correlation_id c))
        → go_on (c, l) (run rest)
          ≡ (c, then_logged l (scoped rest (get_request_id c) (get_correlation_id c)))
    go_on_lem (ls, returned _) c rest h = ap (λ o. (o.0, then_logged (ls, returned tt) o.1)) h
    go_on_lem (ls, raised e) c rest h = refl
