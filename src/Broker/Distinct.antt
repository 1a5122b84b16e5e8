-- ===== src/Broker/Distinct.antt =====
-- No client stands twice in the vector of a topic, whatever the server is asked to do.
use pcom.Prelude.{ℤ, ℕ, List, [], ◌∷◌, Option, none, some, Bool, sym, ◌==◌, if_intro}
use mathlib.Core.Path.{subst}
use pcom.Text.{bytes_of, starts_with}
use pcom.Scan.{same_text, same_text-IsTest, scan_int, c_text}
use pcom.Assoc.{find, find-assign}
use pcom.Broker.{
  Subscription, Connection, State, Turn, next, stopped, undefined, Action, publish_topic, accept,
  is_connected, disconnect, hang_up, connection_or_new,
}
use pcom.Broker.Commands.{
  has_client, erase_at, put_topic, unsubscribe_from, unsubscribe, topic_or_new, subscribe_to,
  subscribe_flag, subscribe, obey, scan_topic, is_set,
}
use pcom.Broker.Parse.{Parsed, parsed, dropped, process_udp_packet, message}
use pcom.Broker.Parse
use pcom.Broker.Publish.{IsDistinct, distinct_nil}
use pcom.Broker.Run.{
  Event, datagram, connection, received, typed, handle_datagram, handle_received, handle, and_then,
  go_on, run, start,
}
use pcom.Broker.Unique.{WhenSome, when_none, when_some, add_client-IsDistinct, erase_at-IsDistinct}

-- The invariant: a topic that is found has no client twice.
abbrev pub AllDistinct : State → Type 0
AllDistinct st = (name : List ℕ) → WhenSome IsDistinct (find same_text st.topics name)

-- What holds of the next state, if there is one.
pub data Holds (P : State → Type 0) : Turn → Type 0 where
  holds_next : {st : State} {actions : List Action} → P st → Holds P (next st actions)
  holds_stopped : {actions : List Action} → Holds P (stopped actions)
  holds_undefined : Holds P undefined

put_topic-AllDistinct :
    (st : State) (name : List ℕ) (o : Option (List Subscription))
    → AllDistinct st
    → WhenSome IsDistinct o
    → Holds AllDistinct (put_topic st name o)
unfolding put_topic
put_topic-AllDistinct st name none all w = holds_undefined
put_topic-AllDistinct st name (some topic) all (when_some d) = holds_next λ other.
    subst (WhenSome IsDistinct)
      (sym (find-assign same_text same_text-IsTest st.topics name topic other))
      (if_intro (WhenSome IsDistinct) (same_text name other) (some topic)
        (find same_text st.topics other) (when_some d) (all other))

topic_or_new-IsDistinct :
    (o : Option (List Subscription)) → WhenSome IsDistinct o → IsDistinct (topic_or_new o)
unfolding topic_or_new
topic_or_new-IsDistinct none w = distinct_nil
topic_or_new-IsDistinct (some topic) (when_some d) = d

module _ (st : State) (all : AllDistinct st) where
  same_topics : {actions : List Action} → Holds AllDistinct (next st actions)
  same_topics = holds_next all

  unsubscribe_from-AllDistinct :
      (fd : ℕ) (name : List ℕ) (o : Option (List Subscription)) (c : Option Connection)
      → WhenSome IsDistinct o
      → Holds AllDistinct (unsubscribe_from st fd name o c)
  unfolding unsubscribe_from
  unsubscribe_from-AllDistinct fd name none c w = same_topics
  unsubscribe_from-AllDistinct fd name (some topic) none w = same_topics
  unsubscribe_from-AllDistinct fd name (some topic) (some c) (when_some d) =
      if_intro (Holds AllDistinct) (has_client topic c.client_id) _ _
        (put_topic-AllDistinct st name (erase_at topic fd) all (erase_at-IsDistinct topic fd d))
        same_topics

  subscribe_to-AllDistinct :
      (name : List ℕ) (sf : Bool) (c : Option Connection)
      → Holds AllDistinct (subscribe_to st name sf c)
  unfolding subscribe_to
  subscribe_to-AllDistinct name sf none = same_topics
  subscribe_to-AllDistinct name sf (some c) =
      put_topic-AllDistinct st name _ all
        (when_some (add_client-IsDistinct c.client_id sf _ (topic_or_new-IsDistinct _ (all name))))

  subscribe_flag-AllDistinct :
      (fd : ℕ) (name : List ℕ) (o : Option (ℤ × List ℕ))
      → Holds AllDistinct (subscribe_flag st fd name o)
  unfolding subscribe_flag
  subscribe_flag-AllDistinct fd name none = holds_undefined
  subscribe_flag-AllDistinct fd name (some (flag, rest)) =
      subscribe_to-AllDistinct name (is_set flag) _

  subscribe-AllDistinct :
      (fd : ℕ) (o : Option (List ℕ × List ℕ)) → Holds AllDistinct (subscribe st fd o)
  unfolding subscribe
  subscribe-AllDistinct fd none = holds_undefined
  subscribe-AllDistinct fd (some (name, rest)) = subscribe_flag-AllDistinct fd name (scan_int rest)

  unsubscribe-AllDistinct :
      (fd : ℕ) (o : Option (List ℕ × List ℕ)) → Holds AllDistinct (unsubscribe st fd o)
  unfolding unsubscribe
  unsubscribe-AllDistinct fd none = holds_undefined
  unsubscribe-AllDistinct fd (some (name, rest)) =
      unsubscribe_from-AllDistinct fd name _ _ (all name)

  obey-AllDistinct : (fd : ℕ) (buf : List ℕ) → Holds AllDistinct (obey st fd buf)
  unfolding obey
  obey-AllDistinct fd buf =
      if_intro (Holds AllDistinct) (starts_with (bytes_of "unsubscribe") buf) _ _
        (unsubscribe-AllDistinct fd (scan_topic buf))
        (if_intro (Holds AllDistinct) (starts_with (bytes_of "subscribe") buf) _ _
          (subscribe-AllDistinct fd (scan_topic buf)) same_topics)

  received-AllDistinct : (fd : ℕ) (buf : List ℕ) → Holds AllDistinct (handle_received st fd buf)
  unfolding handle_received disconnect hang_up
  received-AllDistinct fd [] =
      if_intro (Holds AllDistinct)
        (same_text (connection_or_new (find ◌==◌ st.clients_connected fd)).client_id []) _ _
        (holds_next all) (holds_next all)
  received-AllDistinct fd (c ∷ buf) = obey-AllDistinct fd (c_text (c ∷ buf))

  publish_topic-AllDistinct :
      (text : List ℕ) (o : Option (List Subscription)) → Holds AllDistinct (publish_topic st text o)
  unfolding publish_topic
  publish_topic-AllDistinct text none = same_topics
  publish_topic-AllDistinct text (some topic) = holds_next all

  datagram-AllDistinct :
      (ip : List ℕ) (port : ℕ) (p : Parsed) → Holds AllDistinct (handle_datagram st ip port p)
  unfolding handle_datagram
  datagram-AllDistinct ip port dropped = same_topics
  datagram-AllDistinct ip port Parse.undefined = holds_undefined
  datagram-AllDistinct ip port (parsed packet) = publish_topic-AllDistinct _ _

  -- Every round keeps the invariant.
  handle-AllDistinct :
      (fixed : ℕ → ℕ → ℕ → List ℕ) (event : Event) → Holds AllDistinct (handle fixed st event)
  unfolding handle accept
  handle-AllDistinct fixed (datagram ip port buf) = datagram-AllDistinct ip port _
  handle-AllDistinct fixed (connection fd ip port buf) =
      if_intro (Holds AllDistinct) (is_connected (find same_text st.subscribers (c_text buf))) _ _
        (holds_next all) (holds_next all)
  handle-AllDistinct fixed (received fd buf) = received-AllDistinct fd buf
  handle-AllDistinct fixed (typed line) =
      if_intro (Holds AllDistinct) (same_text line (bytes_of "exit\n")) _ _ holds_stopped
        same_topics

Holds-and_then :
    (P : State → Type 0) (actions : List Action) (turn : Turn)
    → Holds P turn
    → Holds P (and_then actions turn)
unfolding and_then
Holds-and_then P actions (next st more) (holds_next h) = holds_next h
Holds-and_then P actions (stopped more) h = holds_stopped
Holds-and_then P actions undefined h = holds_undefined

Holds-go_on :
    (P : State → Type 0) (rest : State → Turn) (turn : Turn)
    → ((st : State) → P st → Holds P (rest st))
    → Holds P turn
    → Holds P (go_on rest turn)
unfolding go_on
Holds-go_on P rest (next st actions) step (holds_next h) =
    Holds-and_then P actions (rest st) (step st h)
Holds-go_on P rest (stopped actions) step h = holds_stopped
Holds-go_on P rest undefined step h = holds_undefined

run_from-AllDistinct :
    (fixed : ℕ → ℕ → ℕ → List ℕ) (events : List Event) (st : State)
    → AllDistinct st
    → Holds AllDistinct (run fixed st events)
unfolding run
run_from-AllDistinct fixed [] st all = holds_next all
run_from-AllDistinct fixed (event ∷ events) st all =
    Holds-go_on AllDistinct (λ st'. run fixed st' events) (handle fixed st event)
      (λ st' all'. run_from-AllDistinct fixed events st' all')
      (handle-AllDistinct st all fixed event)

-- Whatever happens to the server after its start, as long as the loop goes on, no topic has a client
-- twice.
pub run-AllDistinct :
    (fixed : ℕ → ℕ → ℕ → List ℕ) (tcp udp : ℕ) (events : List Event)
    → Holds AllDistinct (run fixed (start tcp udp) events)
unfolding start find
run-AllDistinct fixed tcp udp events =
    run_from-AllDistinct fixed events (start tcp udp) (λ name. when_none)
