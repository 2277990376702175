-- ===== src/Receiver/Remote/Waits.antt =====
-- The waits of internal/receiver/remote.go between two connections.
use taplytix.Prelude.{List, [], ◌∷◌, ◌++◌, Str}
use taplytix.Receiver.Outlet.{Outlet}
use taplytix.Receiver.Remote.{Connection, refused, reads}

-- The messages of all connections, in order.
abbrev pub messages_of : List Connection → List Str
messages_of [] = []
messages_of (refused ∷ conns) = messages_of conns
messages_of (reads msgs ∷ conns) = msgs ++ messages_of conns
