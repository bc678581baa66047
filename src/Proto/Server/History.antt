-- ===== src/Proto/Server/History.antt =====
-- Histories of the handler: the events that change it, one after another.
use simple_go_server.Common.{ℕ, String, ◌≢◌, Bool, Option, List, [], ◌∷◌, nat_eq, string_eq}
use simple_go_server.Proto.{Frame}
use simple_go_server.Proto.Server.{Handler}
use simple_go_server.Proto.Server.Sessions.{reap_expired_sessions}
use simple_go_server.Proto.Server.Publishing.{publish_to}
use simple_go_server.Proto.Server.Handling.{Outside, handle_read}

-- What happens to a handler: a frame arrives, the application publishes, the janitor sweeps. A
-- frame comes with the time and with the token that would be minted, a publish with its marshalled
-- payload and the answers of the writes.
pub data Event : Type 0 where
  arrives : (conn : ℕ) (frame : Frame) (now : ℕ) (minted : String) → Event
  publishes : (topic : String) (body : Option (List ℕ)) (writes : ℕ → Bool) → Event
  sweeps : (now : ℕ) → Event

unfoldable pub step : Outside → Handler → Event → Handler
step o h (arrives conn frame now minted) = (handle_read o h conn frame now minted).0
step o h (publishes topic body writes) = (publish_to o.must_json writes h topic body).0
step o h (sweeps now) = reap_expired_sessions h now

unfoldable pub run : Outside → Handler → List Event → Handler
run o h [] = h
run o h (e ∷ events) = run o (step o h e) events

-- The application publishes to topics that have a name.
abbrev pub HasName : Event → Type 0
HasName (arrives conn frame now minted) = Unit {0}
HasName (publishes topic body writes) = topic ≢ ""
HasName (sweeps now) = Unit {0}
