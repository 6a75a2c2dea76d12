-- ===== src/Asgi.antt =====
-- The ASGI calling convention that the middleware of src/app/middleware is written against: a scope,
-- the messages that are received and sent, and an application as the tree of what it does. A node
-- of the tree awaits `receive`, awaits `send`, returns or raises; what follows a `receive` depends on
-- the message, or on the exception that the `receive` raised.
pub mod Protocol
pub mod Path
use fastapi_chassis.Base.{ℕ, String, Bool, Option, none, some, List, [], ◌∷◌, ◌++◌, ◌==◌}
use fastapi_chassis.Base.Dict.{Dict}

abbrev pub Bytes : Type 0
Bytes = List ℕ

-- Raw header lists, in order.
abbrev pub Headers : Type 0
Headers = List (String × String)

-- The keys of the scope that the program reads; `none` is a missing key.
pub record Scope : Type 0 where
  pub kind : String
  pub path : Option String
  pub root_path : Option String
  pub scheme : Option String
  pub method : Option String
  pub query_string : Option String
  pub client : Option String
  pub headers : Headers
  pub state : Dict String

-- `scope["type"] == "http"`
abbrev pub is_http : Scope → Bool
is_http scope = scope.kind == "http"

pub data Received : Type 0 where
  request : Bytes → Bool → Received
  disconnect : Received

pub data Sent : Type 0 where
  start : ℕ → Headers → Sent
  body : Bytes → Bool → Sent

-- Exceptions, as far as the middleware tells them apart.
pub data Failure : Type 0 where
  request_too_large timeout_error : Failure
  other : ℕ → Failure

-- What `await receive()` gives: a message, or an exception.
pub data Delivery : Type 0 where
  message : Received → Delivery
  failed : Failure → Delivery

pub data App : Type 0 where
  done : App
  raise : Failure → App
  receive : (Delivery → App) → App
  send : Sent → App → App

abbrev pub Application : Type 0
Application = Scope → App

-- How a run ended.
pub data Ending : Type 0 where
  returned : Ending
  raised : Failure → Ending

-- What an application sends, given what arrives, and how it ends. After the last arrival the client
-- is gone.
unfoldable pub run : List Delivery → App → List Sent × Ending
run ds done = ([], returned)
run ds (raise e) = ([], raised e)
run [] (receive k) = run [] (k (message disconnect))
run (d ∷ ds) (receive k) = run ds (k d)
run ds (send m app) = let rest = run ds app in (m ∷ rest.0, rest.1)
