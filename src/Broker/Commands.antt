-- ===== src/Broker/Commands.antt =====
-- The commands of a connected client of Teme/Tema2/server.cpp: `subscribe` and `unsubscribe`.
use pcom.Prelude.{
  ℕ, zero, suc, ◌++◌, List, [], ◌∷◌, Option, none, some, Bool, true, false, ltb, if◌then◌else◌, not,
  ℤ, pos, negsuc, ◌==◌, length,
}
use pcom.Text.{bytes_of, starts_with}
use pcom.Scan.{same_text, scan_word, scan_int}
use pcom.Assoc.{find, assign}
use pcom.Broker.{Subscription, Connection, State, Turn, next, undefined}

unfoldable pub fit : (size : ℕ) → Option (List ℕ × List ℕ) → Option (List ℕ × List ℕ)
fit size none = none
fit size (some (word, rest)) = if ltb (length word) size then some (word, rest) else none

-- What `%s %s` put into `junk[16]` and `topicStr[51]`: the topic and what follows it; `none` is a
-- write behind the arrays or a topic that is never written.
unfoldable pub scan_topic_from : Option (List ℕ × List ℕ) → Option (List ℕ × List ℕ)
scan_topic_from none = none
scan_topic_from (some (junk, rest)) = fit 51 (scan_word rest)

unfoldable pub scan_topic : List ℕ → Option (List ℕ × List ℕ)
scan_topic buf = scan_topic_from (fit 16 (scan_word buf))

-- `if (SFInt == 0) SF = false; else SF = true;`
unfoldable pub is_set : ℤ → Bool
is_set (pos n) = not (n == 0)
is_set (negsuc n) = true

-- Does a subscriber of the topic have this name?
unfoldable pub has_client : List Subscription → (client_id : List ℕ) → Bool
has_client [] client_id = false
has_client (s ∷ topic) client_id =
    let rest = has_client topic client_id in if same_text s.client_id client_id then true else rest

unfoldable pub keep_front : Subscription → Option (List Subscription) → Option (List Subscription)
keep_front s none = none
keep_front s (some rest) = some (s ∷ rest)

-- `topic->second.erase(topic->second.begin() + i)`; `none` is an iterator behind the end.
unfoldable pub erase_at : List Subscription → ℕ → Option (List Subscription)
erase_at [] i = none
erase_at (s ∷ topic) zero = some topic
erase_at (s ∷ topic) (suc i) = keep_front s (erase_at topic i)

unfoldable pub put_topic : State → (name : List ℕ) → Option (List Subscription) → Turn
put_topic st name none = undefined
put_topic st name (some topic) =
    next (record st { topics = assign same_text st.topics name topic }) []

-- `unsubscribe` of the client on `fd`.
unfoldable pub unsubscribe_from :
    State → (fd : ℕ) (name : List ℕ) → Option (List Subscription) → Option Connection → Turn
unsubscribe_from st fd name none connection = next st []
unsubscribe_from st fd name (some topic) none = next st []
unsubscribe_from st fd name (some topic) (some connection) =
    if has_client topic connection.client_id
    then put_topic st name (erase_at topic fd)
    else next st []

unfoldable pub unsubscribe : State → (fd : ℕ) → Option (List ℕ × List ℕ) → Turn
unsubscribe st fd none = undefined
unsubscribe st fd (some (name, rest)) =
    unsubscribe_from st fd name (find same_text st.topics name) (find ◌==◌ st.clients_connected fd)

-- The vector of the topic with one more subscriber, unless it has the client: the assignment to its
-- `SF` is to a copy.
unfoldable pub add_client : (client_id : List ℕ) → Bool → List Subscription → List Subscription
add_client client_id sf topic =
    if has_client topic client_id
    then topic
    else topic ++ (record { client_id = client_id; sf = sf } ∷ [])

unfoldable pub topic_or_new : Option (List Subscription) → List Subscription
topic_or_new none = []
topic_or_new (some topic) = topic

-- `subscribe` of the client on `fd`.
unfoldable pub subscribe_to : State → (name : List ℕ) → Bool → Option Connection → Turn
subscribe_to st name sf none = next st []
subscribe_to st name sf (some connection) =
    put_topic st name
      (some (add_client connection.client_id sf (topic_or_new (find same_text st.topics name))))

unfoldable pub subscribe_flag : State → (fd : ℕ) (name : List ℕ) → Option (ℤ × List ℕ) → Turn
subscribe_flag st fd name none = undefined
subscribe_flag st fd name (some (flag, rest)) =
    subscribe_to st name (is_set flag) (find ◌==◌ st.clients_connected fd)

unfoldable pub subscribe : State → (fd : ℕ) → Option (List ℕ × List ℕ) → Turn
subscribe st fd none = undefined
subscribe st fd (some (name, rest)) = subscribe_flag st fd name (scan_int rest)

-- The branch of a client that has sent `buf`.
unfoldable pub obey : State → (fd : ℕ) (buf : List ℕ) → Turn
obey st fd buf =
    if starts_with (bytes_of "unsubscribe") buf
    then unsubscribe st fd (scan_topic buf)
    else if starts_with (bytes_of "subscribe") buf
    then subscribe st fd (scan_topic buf)
    else next st []
