-- ===== src/Broker.antt =====
-- The publish and subscribe server of Teme/Tema2/server.cpp: one call of `handle` for each thing that
-- its loop finds to do. Sends succeed, as `DIE` ends the program otherwise.
pub mod Parse
pub mod Commands
pub mod Run
pub mod Publish
pub mod Unique
pub mod Distinct
pub mod Rejoin
pub mod Sessions
use pcom.Prelude.{
  ℕ, ◌+◌, List, [], ◌∷◌, ◌++◌, Option, none, some, Bool, true, false, ltb, ◌==◌, ◌&&◌, not,
  if◌then◌else◌, ℤ, pos, length,
}
use pcom.Text.{bytes_of}
use pcom.Scan.{same_text}
use pcom.Assoc.{find, assign, erase}

-- An element of a vector of `topics`: the members of `subscriber` that are set there.
pub record Subscription : Type 0 where
  pub client_id : List ℕ
  pub sf : Bool

-- An element of `subscribers`: the members of `subscriber` that are set there.
pub record Subscriber : Type 0 where
  pub client_id : List ℕ
  pub connected : Bool
  pub fd : ℕ
  pub packets : List (List ℕ)

-- `data`
pub record Connection : Type 0 where
  pub ip_client_tcp : List ℕ
  pub port_client_tcp : ℕ
  pub client_id : List ℕ

-- The three maps, and `read_fds`.
pub record State : Type 0 where
  pub clients_connected : List (ℕ × Connection)
  pub topics : List (List ℕ × List Subscription)
  pub subscribers : List (List ℕ × Subscriber)
  pub read_fds : List ℕ

-- What the server does to a socket.
pub data Action : Type 0 where
  send : (fd : ℕ) → (text : List ℕ) → Action
  close : (fd : ℕ) → Action

-- A round: the next state and the actions, the end of the loop, or undefined behaviour.
pub data Turn : Type 0 where
  next : State → List Action → Turn
  stopped : List Action → Turn
  undefined : Turn

-- One subscriber of the topic, when its entry of `subscribers` is known: the entry, and the actions.
unfoldable pub deliver_to : (text : List ℕ) → Bool → Subscriber → Subscriber × List Action
deliver_to text sf s =
    if s.connected
    then (s, send s.fd text ∷ [])
    else if sf
    then (record s { packets = s.packets ++ (text ∷ []) }, [])
    else (s, [])

unfoldable pub deliver :
    (text : List ℕ)
    → List (List ℕ × Subscriber)
    → Subscription
    → Option Subscriber
    → List (List ℕ × Subscriber) × List Action
deliver text subscribers s none = (subscribers, [])
deliver text subscribers s (some entry) =
    let d = deliver_to text s.sf entry in (assign same_text subscribers s.client_id d.0, d.1)

-- `for (subscriber subscriber : topic->second)`
unfoldable pub publish :
    (text : List ℕ)
    → List (List ℕ × Subscriber)
    → List Subscription
    → List (List ℕ × Subscriber) × List Action
publish text subscribers [] = (subscribers, [])
publish text subscribers (s ∷ topic) =
    let d = deliver text subscribers s (find same_text subscribers s.client_id) in
    let rest = publish text d.0 topic in (rest.0, d.1 ++ rest.1)

-- `topics.find(data.topic)` and the loop.
unfoldable pub publish_topic : State → (text : List ℕ) → Option (List Subscription) → Turn
publish_topic st text none = next st []
publish_topic st text (some topic) =
    let p = publish text st.subscribers topic in next (record st { subscribers = p.0 }) p.1

-- `subscribers.find(buf)` of a new connection: the entry that it gets.
unfoldable pub joined : (client_id : List ℕ) (fd : ℕ) → Option Subscriber → Subscriber
joined client_id fd none = record { client_id = client_id; connected = true; fd = fd; packets = [] }
joined client_id fd (some s) = record s { connected = true; fd = fd }

-- The stored packets, in order.
unfoldable pub send_stored : (fd : ℕ) → List (List ℕ) → List Action
send_stored fd [] = []
send_stored fd (packet ∷ packets) = send fd packet ∷ send_stored fd packets

unfoldable pub is_connected : Option Subscriber → Bool
is_connected none = false
is_connected (some s) = s.connected

-- The branch of a new connection, where `client_id` is the text that came in first.
unfoldable pub accept : State → (fd : ℕ) (ip : List ℕ) (port : ℕ) (client_id : List ℕ) → Turn
accept st fd ip port client_id =
    let entry = find same_text st.subscribers client_id in
    let s = joined client_id fd entry in
    let st' = record st { read_fds = st.read_fds ++ (fd ∷ []) } in
    let connection : Connection = record {
      ip_client_tcp = ip;
      port_client_tcp = port;
      client_id = client_id;
    } in
    if is_connected entry
    then next st' (send fd (bytes_of ";ID_EXISTS;\n") ∷ [])
    else next
        (record st' {
          clients_connected = assign ◌==◌ st.clients_connected fd connection;
          subscribers = assign same_text st.subscribers client_id (record s { packets = [] });
        })
        (send_stored fd s.packets)

-- `subscriber->second.connected = false`, where the client has an entry.
unfoldable pub left :
    List (List ℕ × Subscriber)
    → (client_id : List ℕ) → Option Subscriber
    → List (List ℕ × Subscriber)
left subscribers client_id none = subscribers
left subscribers client_id (some s) =
    assign same_text subscribers client_id (record s { connected = false })

-- `FD_CLR`
unfoldable pub remove_fd : List ℕ → ℕ → List ℕ
remove_fd [] fd = []
remove_fd (f ∷ fds) fd = let rest = remove_fd fds fd in if f == fd then rest else f ∷ rest

unfoldable pub connection_or_new : Option Connection → Connection
connection_or_new none = record { ip_client_tcp = []; port_client_tcp = 0; client_id = [] }
connection_or_new (some connection) = connection

-- A row with an empty name is left as `clientsConnected[i]` has made it; the socket stays open.
unfoldable pub hang_up : State → (fd : ℕ) → Connection → Turn
hang_up st fd connection =
    if same_text connection.client_id []
    then next (record st { clients_connected = assign ◌==◌ st.clients_connected fd connection }) []
    else next
        (record st {
          clients_connected = erase ◌==◌ st.clients_connected fd;
          subscribers =
              left st.subscribers connection.client_id
                (find same_text st.subscribers connection.client_id);
          read_fds = remove_fd st.read_fds fd;
        })
        (close fd ∷ [])

-- The branch of `recv` that returns 0.
unfoldable pub disconnect : State → (fd : ℕ) → Turn
disconnect st fd = hang_up st fd (connection_or_new (find ◌==◌ st.clients_connected fd))
