-- ===== src/Middleware/Headers.antt =====
-- The `send_wrapper`s that only change the headers of the start of a response.
use fastapi_chassis.Base.{◌≡◌, refl, ap, List, [], ◌∷◌, map}
use fastapi_chassis.Asgi.{
  Headers, Delivery, message, disconnect, Sent, start, body, App, done, raise, receive, send,
  Ending, run,
}
use fastapi_chassis.Asgi.Protocol.{Phase, idle, started, finished, after, Allowed_map, Speaks}

-- A message with the headers of a start changed.
abbrev pub change : (Headers → Headers) → Sent → Sent
change f (start status headers) = start status (f headers)
change f (body bytes more_body) = body bytes more_body

unfoldable pub with_headers : (Headers → Headers) → App → App
with_headers f done = done
with_headers f (raise e) = raise e
with_headers f (receive k) = receive (λ d. with_headers f (k d))
with_headers f (send m app) = send (change f m) (with_headers f app)

after-change : (f : Headers → Headers) (p : Phase) (m : Sent) → after p (change f m) ≡ after p m
unfolding after
after-change f idle (start _ _) = refl
after-change f started (start _ _) = refl
after-change f finished (start _ _) = refl
after-change f p (body _ _) = refl

-- Changing headers keeps the order of a response.
pub with_headers-Speaks :
    (f : Headers → Headers) (p : Phase) (app : App) → Speaks p app → Speaks p (with_headers f app)
unfolding with_headers
with_headers-Speaks f p done h = h
with_headers-Speaks f p (raise e) h = h
with_headers-Speaks f p (receive k) h = λ d. with_headers-Speaks f p (k d) (h d)
with_headers-Speaks f p (send m app) h =
    rw (after-change f p m) (Allowed_map (after p m) (λ q. with_headers-Speaks f q app) h)

-- A run under such a wrapper sends the same messages with the headers changed, and ends the same way.
pub run-with_headers :
    (f : Headers → Headers) (ds : List Delivery) (app : App)
    → run ds (with_headers f app) ≡ (map (change f) (run ds app).0, (run ds app).1)
unfolding with_headers run
run-with_headers f ds done = refl
run-with_headers f ds (raise e) = refl
run-with_headers f [] (receive k) = run-with_headers f [] (k (message disconnect))
run-with_headers f (d ∷ ds) (receive k) = run-with_headers f ds (k d)
run-with_headers f ds (send m app) =
    ap (λ (o : List Sent × Ending). (change f m ∷ o.0, o.1)) (run-with_headers f ds app)
