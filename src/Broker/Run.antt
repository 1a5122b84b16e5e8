-- ===== src/Broker/Run.antt =====
-- The loop of Teme/Tema2/server.cpp over the things that `select` reports, one at a time.
use pcom.Prelude.{ℕ, List, [], ◌∷◌, ◌++◌, if◌then◌else◌}
use pcom.Text.{bytes_of}
use pcom.Scan.{same_text, c_text}
use pcom.Assoc.{find}
use pcom.Broker.{
  State, Connection, Action, send, Turn, next, stopped, publish_topic, accept, disconnect,
}
use pcom.Broker.{undefined}
use pcom.Broker.Commands.{obey}
use pcom.Broker.Parse.{Parsed, parsed, dropped, process_udp_packet, message}
use pcom.Broker.Parse

-- What `select` reports: a datagram (`port` is `sin_port` as it stands in memory), a new connection
-- with the bytes that it sends first, bytes on a connection (none of them when it was closed), and a
-- line on the standard input. A receive gives fewer than `MAX_LEN` bytes, so that a NUL follows.
pub data Event : Type 0 where
  datagram : (ip : List ℕ) → (port : ℕ) → (buf : List ℕ) → Event
  connection : (fd : ℕ) → (ip : List ℕ) → (port : ℕ) → (buf : List ℕ) → Event
  received : (fd : ℕ) → (buf : List ℕ) → Event
  typed : (line : List ℕ) → Event

-- The branch of a datagram.
unfoldable pub handle_datagram : State → (ip : List ℕ) (port : ℕ) → Parsed → Turn
handle_datagram st ip port dropped = next st []
handle_datagram st ip port Parse.undefined = undefined
handle_datagram st ip port (parsed packet) =
    publish_topic st (message ip port packet) (find same_text st.topics packet.topic)

-- `exit`: every connection is told.
unfoldable pub tell_all : List (ℕ × Connection) → List Action
tell_all [] = []
tell_all ((fd, c) ∷ rows) = send fd (bytes_of ";EXIT;\n") ∷ (Action.close fd ∷ tell_all rows)

unfoldable pub handle_received : State → (fd : ℕ) (buf : List ℕ) → Turn
handle_received st fd [] = disconnect st fd
handle_received st fd (c ∷ buf) = obey st fd (c_text (c ∷ buf))

unfoldable pub handle : (fixed : ℕ → ℕ → ℕ → List ℕ) → State → Event → Turn
handle fixed st (datagram ip port buf) = handle_datagram st ip port (process_udp_packet fixed buf)
handle fixed st (connection fd ip port buf) = accept st fd ip port (c_text buf)
handle fixed st (received fd buf) = handle_received st fd buf
handle fixed st (typed line) =
    if same_text line (bytes_of "exit\n")
    then stopped (tell_all st.clients_connected)
    else next st []

unfoldable pub and_then : List Action → Turn → Turn
and_then actions (next st more) = next st (actions ++ more)
and_then actions (stopped more) = stopped (actions ++ more)
and_then actions undefined = undefined

unfoldable pub go_on : (rest : State → Turn) → Turn → Turn
go_on rest (next st actions) = and_then actions (rest st)
go_on rest (stopped actions) = stopped actions
go_on rest undefined = undefined

-- The `while` loop.
unfoldable pub run : (fixed : ℕ → ℕ → ℕ → List ℕ) → State → List Event → Turn
run fixed st [] = next st []
run fixed st (event ∷ events) = go_on (λ st'. run fixed st' events) (handle fixed st event)

-- The maps are empty at first; `read_fds` has the standard input and the two sockets.
unfoldable pub start : (tcp udp : ℕ) → State
start tcp udp = record {
  clients_connected = [];
  topics = [];
  subscribers = [];
  read_fds = 0 ∷ tcp ∷ udp ∷ [];
}
