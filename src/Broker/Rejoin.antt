-- ===== src/Broker/Rejoin.antt =====
-- Store and forward: what is published to a topic while a client with `SF` set is away reaches it
-- when it comes back. And a second connection under a name that is in use.
use pcom.Prelude.{
  ℕ, List, [], ◌∷◌, ◌++◌, append_assoc, append-nil, some, true, false, ◌≡◌, refl, sym, ap, ◌∙◌,
  ◌==◌,
}
use pcom.Scan.{same_text, same_text-IsTest, c_text}
use pcom.Assoc.{find, assign, find-assign}
use pcom.Broker.{
  Subscription, Subscriber, State, next, Action, send, publish, publish_topic, joined, send_stored,
  is_connected, accept,
}
use pcom.Broker.Parse.{parsed, process_udp_packet, message}
use pcom.Broker.Publish.{IsDistinct, subscription_of, find-publish}
use pcom.Broker.Run.{Event, datagram, connection, handle_datagram, handle, and_then, go_on, run}

-- Datagrams for one topic, and the messages that are made of them.
pub data ArePublished (fixed : ℕ → ℕ → ℕ → List ℕ) (name : List ℕ)
    : List Event → List (List ℕ) → Type 0 where
  published_nil : ArePublished fixed name [] []
  published_cons :
      {ip : List ℕ} {port : ℕ} {buf type payload : List ℕ} {events : List Event}
      {texts : List (List ℕ)}
      → process_udp_packet fixed buf
        ≡ parsed (record { topic = name; type = type; payload = payload })
      → ArePublished fixed name events texts
      → ArePublished fixed name
          (datagram ip port buf ∷ events)
          (message ip port (record { topic = name; type = type; payload = payload }) ∷ texts)

-- Each text sent once to the socket, in order.
abbrev pub each_sent : (fd : ℕ) → (texts : List (List ℕ)) → List Action
each_sent fd [] = []
each_sent fd (text ∷ texts) = send fd text ∷ each_sent fd texts

send_stored_lem : (fd : ℕ) (packets : List (List ℕ)) → send_stored fd packets ≡ each_sent fd packets
unfolding send_stored
send_stored_lem fd [] = refl
send_stored_lem fd (packet ∷ packets) =
    ap (λ sent. send fd packet ∷ sent) (send_stored_lem fd packets)

-- A client that is away.
abbrev pub away : (client_id : List ℕ) (fd : ℕ) (packets : List (List ℕ)) → Subscriber
away client_id fd packets = record {
  client_id = client_id;
  connected = false;
  fd = fd;
  packets = packets;
}

-- The same client on a new socket, with nothing stored.
abbrev pub back : (client_id : List ℕ) (fd : ℕ) → Subscriber
back client_id fd = record { client_id = client_id; connected = true; fd = fd; packets = [] }

abbrev returned : State → (fd : ℕ) (ip : List ℕ) (port : ℕ) (client_id : List ℕ) → State
returned st fd ip port client_id = record st {
  clients_connected =
      assign ◌==◌ st.clients_connected fd
        (record { ip_client_tcp = ip; port_client_tcp = port; client_id = client_id });
  subscribers = assign same_text st.subscribers client_id (back client_id fd);
  read_fds = st.read_fds ++ (fd ∷ []);
}

-- A client's return: the stored packets are sent in order and forgotten.
accept-stored :
    (st : State) (fd old : ℕ) (ip : List ℕ) (port : ℕ) (client_id : List ℕ)
    (packets : List (List ℕ))
    → find same_text st.subscribers client_id ≡ some (away client_id old packets)
    → (st' : State) × (accept st fd ip port client_id ≡ next st' (send_stored fd packets))
      × (find same_text st'.subscribers client_id ≡ some (back client_id fd))
unfolding accept joined is_connected
accept-stored st fd old ip port client_id packets h = (
  returned st fd ip port client_id,
  (rw h refl),
  find-assign same_text same_text-IsTest st.subscribers client_id (back client_id fd) client_id
      ∙ rw (same_text-IsTest.same_refl client_id) refl,
)

module _ (fixed : ℕ → ℕ → ℕ → List ℕ) (name client_id : List ℕ) (topic : List Subscription)
    (distinct : IsDistinct topic)
    (subscribed : subscription_of topic client_id
      ≡ some (record { client_id = client_id; sf = true })) where
  -- The state after one publication to the topic.
  abbrev stored : State → List ℕ → State
  stored st text = record st { subscribers = (publish text st.subscribers topic).0 }

  stored-away :
      (st : State) (text : List ℕ) (old : ℕ) (packets : List (List ℕ))
      → find same_text st.subscribers client_id ≡ some (away client_id old packets)
      → find same_text (stored st text).subscribers client_id
        ≡ some (away client_id old (packets ++ (text ∷ [])))
  stored-away st text old packets h =
      find-publish text st.subscribers topic client_id distinct ∙ rw (subscribed, h) refl

  run-send_stored :
      {events : List Event} {texts : List (List ℕ)}
      → ArePublished fixed name events texts
      → (st : State) (fd old : ℕ) (ip : List ℕ) (port : ℕ) (buf : List ℕ) (packets : List (List ℕ))
      → c_text buf ≡ client_id
      → find same_text st.topics name ≡ some topic
      → find same_text st.subscribers client_id ≡ some (away client_id old packets)
      → (st' : State) × (before : List Action) × (run fixed st
            (events ++ (connection fd ip port buf ∷ []))
          ≡ next st' (before ++ send_stored fd (packets ++ texts)))
        × (find same_text st'.subscribers client_id ≡ some (back client_id fd))
  unfolding run handle go_on and_then handle_datagram publish_topic
  run-send_stored published_nil st fd old ip port buf packets c t h =
      let joining = accept-stored st fd old ip port client_id packets h in
      (
        joining.0,
        [],
        rw (c, joining.1, append-nil packets, append-nil (send_stored fd packets)) refl,
        joining.2,
      )
  run-send_stored
        (published_cons {ip = from} {port = source} {buf = data_buf} {type = type}
          {payload = payload} {texts = texts} p more)
        st fd old ip port buf packets c t h =
      let text = message from source (record { topic = name; type = type; payload = payload }) in
      let rest =
        run-send_stored more (stored st text) fd old ip port buf (packets ++ (text ∷ [])) c t
          (stored-away st text old packets h) in
      (
        rest.0,
        (publish text st.subscribers topic).1 ++ rest.1,
        rw (p, t, rest.2, append_assoc packets (text ∷ []) texts)
            (ap (next rest.0) (sym (append_assoc (publish text st.subscribers topic).1 rest.1 _))),
        rest.3,
      )

  -- While a client that has subscribed with `SF` set, with no other subscription to the topic, is
  -- away, any datagrams are published to the topic, and then it connects again: the last that the
  -- server sends is what was stored for it before, and then each of those messages once, in order,
  -- on the new socket; nothing is stored for it any more.
  pub run-stored :
      {events : List Event} {texts : List (List ℕ)}
      → ArePublished fixed name events texts
      → (st : State) (fd old : ℕ) (ip : List ℕ) (port : ℕ) (buf : List ℕ) (packets : List (List ℕ))
      → c_text buf ≡ client_id
      → find same_text st.topics name ≡ some topic
      → find same_text st.subscribers client_id ≡ some (away client_id old packets)
      → (st' : State) × (before : List Action) × (run fixed st
            (events ++ (connection fd ip port buf ∷ []))
          ≡ next st' (before ++ each_sent fd (packets ++ texts)))
        × (find same_text st'.subscribers client_id ≡ some (back client_id fd))
  run-stored {texts = texts} p st fd old ip port buf packets c t h =
      let made = run-send_stored p st fd old ip port buf packets c t h in
      (
        made.0,
        made.1,
        made.2 ∙ ap (λ sent. next made.0 (made.1 ++ sent)) (send_stored_lem fd (packets ++ texts)),
        made.3,
      )
