-- ===== src/Broker/Sessions.antt =====
-- A second connection under a name that is in use, and a client that changes its subscriptions.
use pcom.Prelude.{
  ℕ, zero, suc, ◌≤◌, List, [], ◌∷◌, ◌++◌, length, none, some, Bool, true, if◌then◌else◌, ◌≡◌, refl,
  sym, ap, ◌∙◌, arith, ◌==◌, Bool-cases, inl, inr,
}
use pcom.Text.{bytes_of}
use pcom.Scan.{same_text, same_text-IsTest, c_text}
use pcom.Assoc.{find, assign, find-assign}
use pcom.Broker.{
  Subscription, Connection, State, next, undefined, send, is_connected, accept, connection_or_new,
  hang_up, disconnect,
}
use pcom.Broker.Commands.{
  has_client, keep_front, erase_at, put_topic, unsubscribe_from, unsubscribe, add_client,
  topic_or_new, subscribe_to,
}
use pcom.Broker.Run.{connection, received, handle_received, handle, and_then, go_on, run}

-- A connection under the name of a connected client is told so, and nothing else of the server's
-- state changes but that its socket is watched. When it is closed then, where the socket has no row
-- among the connections, the socket is neither closed nor taken from those watched, and a row with
-- an empty name is made for it.
pub run_rejected :
    (fixed : ℕ → ℕ → ℕ → List ℕ) (st : State) (fd : ℕ) (ip : List ℕ) (port : ℕ) (buf : List ℕ)
    → is_connected (find same_text st.subscribers (c_text buf)) ≡ true
    → find ◌==◌ st.clients_connected fd ≡ none
    → run fixed st (connection fd ip port buf ∷ received fd [] ∷ [])
      ≡ next
          (record st {
            clients_connected = assign ◌==◌ st.clients_connected fd (connection_or_new none);
            read_fds = st.read_fds ++ (fd ∷ []);
          })
          (send fd (bytes_of ";ID_EXISTS;\n") ∷ [])
unfolding run handle go_on and_then accept handle_received disconnect hang_up connection_or_new
    same_text
run_rejected fixed st fd ip port buf connected free = rw (connected, free) refl

erase_at-outside : (topic : List Subscription) (i : ℕ) → length topic ≤ i → erase_at topic i ≡ none
unfolding erase_at keep_front
erase_at-outside [] i h = refl
erase_at-outside (s ∷ topic) zero h = absurd (omega arith)
erase_at-outside (s ∷ topic) (suc i) h = rw (erase_at-outside topic i (omega arith)) refl

-- A client that unsubscribes from a topic with no more subscribers than the number of its socket
-- makes the server erase behind the end of the vector.
pub unsubscribe_outside :
    (st : State) (fd : ℕ) (name rest : List ℕ) {topic : List Subscription} {c : Connection}
    → find same_text st.topics name ≡ some topic
    → find ◌==◌ st.clients_connected fd ≡ some c
    → has_client topic c.client_id ≡ true
    → length topic ≤ fd
    → unsubscribe st fd (some (name, rest)) ≡ undefined
unfolding unsubscribe unsubscribe_from put_topic
unsubscribe_outside st fd name rest {topic} {c} t k h l =
    rw (t, k, h, erase_at-outside topic fd l) refl

-- A client that subscribes again to a topic, with whatever `SF`, leaves the subscribers of every
-- topic as they are, with the `SF` of its first subscription.
pub subscribe_again :
    (st : State) (name : List ℕ) (sf : Bool) (c : Connection) {topic : List Subscription}
    → find same_text st.topics name ≡ some topic
    → has_client topic c.client_id ≡ true
    → (st' : State) × (subscribe_to st name sf (some c) ≡ next st' [])
      × ((other : List ℕ) → find same_text st'.topics other ≡ find same_text st.topics other)
unfolding subscribe_to put_topic topic_or_new add_client
subscribe_again st name sf c {topic} t h = (
  record st { topics = assign same_text st.topics name topic },
  rw (t, h) refl,
  λ other. find-assign same_text same_text-IsTest st.topics name topic other ∙ unchanged other,
)
  where
    unchanged :
        (other : List ℕ)
        → (if same_text name other then some topic else find same_text st.topics other)
          ≡ find same_text st.topics other
    unchanged other = elim (Bool-cases (same_text name other)) [
      | inl e ↦ rw e (sym t ∙ ap (find same_text st.topics) (same_text-IsTest.same→eq name other e))
      | inr f ↦ rw f refl
    ]
