-- ===== src/Tests/Brokers.antt =====
-- The theorems of the publish and subscribe server and of its subscriber at concrete inputs.
use pcom.Prelude.{
  ℕ, List, [], ◌∷◌, ◌++◌, ◌≡◌, refl, arith, none, some, true, false, replicate, ◌==◌,
}
use pcom.Text.{bytes_of, starts_with}
use pcom.Scan.{same_text, c_text}
use pcom.Assoc.{find}
use pcom.Broker.{
  Subscription, Subscriber, Connection, State, Turn, next, undefined, Action, send, publish,
  send_stored, is_connected, connection_or_new,
}
use pcom.Broker.Commands.{has_client}
use pcom.Broker.Parse.{parsed, process_udp_packet, message}
use pcom.Broker.Publish.{
  IsDistinct, distinct_nil, distinct_cons, subscription_of, entry_after, find-publish, sent_all,
  publish-sent_all,
}
use pcom.Broker.Run.{datagram, connection, run, start}
use pcom.Broker.Distinct.{Holds, AllDistinct, run-AllDistinct}
use pcom.Broker.Rejoin.{
  ArePublished, published_nil, published_cons, away, back, each_sent, run-stored,
}
use pcom.Subscriber.{listen}
use pcom.Subscriber.Framing.{
  IsMessage, AreMessages, messages_nil, messages_cons, lines, bytes_sent, listen-send_stored,
}

abbrev ana : List ℕ
ana = bytes_of "ana"

abbrev dan : List ℕ
dan = bytes_of "dan"

abbrev news : List ℕ
news = bytes_of "news"

-- The client "ana" wants what it misses, the client "dan" does not.
abbrev topic : List Subscription
topic = record { client_id = dan; sf = false } ∷ record { client_id = ana; sf = true } ∷ []

abbrev subscribers : List (List ℕ × Subscriber)
subscribers =
    (dan, record { client_id = dan; connected = true; fd = 5; packets = [] })
    ∷ (ana, away ana 6 [])
    ∷ []

abbrev row : Connection
row = record { ip_client_tcp = bytes_of "127.0.0.1"; port_client_tcp = 7; client_id = dan }

abbrev st : State
st = record {
  clients_connected = (5, row) ∷ [];
  topics = (news, topic) ∷ [];
  subscribers = subscribers;
  read_fds = 0 ∷ 3 ∷ 4 ∷ 5 ∷ [];
}

topic-IsDistinct : IsDistinct topic
unfolding has_client same_text
topic-IsDistinct = distinct_cons refl (distinct_cons refl distinct_nil)

find-publish_example :
    find same_text (publish (bytes_of "text") subscribers topic).0 ana
    ≡ entry_after (bytes_of "text") (subscription_of topic ana) (find same_text subscribers ana)
find-publish_example = find-publish (bytes_of "text") subscribers topic ana topic-IsDistinct

-- No number is written in the datagram of the example.
abbrev fixed : ℕ → ℕ → ℕ → List ℕ
fixed = λ digits number power. []

-- The topic "news", of type STRING, with the text "hi".
abbrev buf : List ℕ
buf = bytes_of "news" ++ (replicate 46 0 ++ (3 ∷ bytes_of "hi"))

is_parsed :
    process_udp_packet fixed buf
    ≡ parsed (record { topic = news; type = bytes_of "STRING"; payload = bytes_of "hi" })
unfolding process_udp_packet pcom.Broker.Parse.with_topic c_text
is_parsed = refl

abbrev text : List ℕ
text =
    message (bytes_of "10.0.0.1") 99
      (record { topic = news; type = bytes_of "STRING"; payload = bytes_of "hi" })

published : ArePublished fixed news (datagram (bytes_of "10.0.0.1") 99 buf ∷ []) (text ∷ [])
published = published_cons is_parsed published_nil

ana_subscribed : subscription_of topic ana ≡ some (record { client_id = ana; sf = true })
unfolding subscription_of same_text
ana_subscribed = refl

ana-away : find same_text st.subscribers ana ≡ some (away ana 6 [])
unfolding find same_text
ana-away = refl

news_found : find same_text st.topics news ≡ some topic
unfolding find same_text
news_found = refl

ana_text : c_text ana ≡ ana
unfolding c_text
ana_text = refl

run-stored_example :
    (st' : State) × (before : List Action) × (run fixed st
        (datagram (bytes_of "10.0.0.1") 99 buf ∷ connection 7 (bytes_of "127.0.0.1") 8 ana ∷ [])
      ≡ next st' (before ++ each_sent 7 (text ∷ [])))
    × (find same_text st'.subscribers ana ≡ some (back ana 7))
run-stored_example =
    run-stored fixed news ana topic topic-IsDistinct ana_subscribed published st 7 6
      (bytes_of "127.0.0.1") 8 ana [] ana_text news_found ana-away

dan_connected : is_connected (find same_text st.subscribers (c_text dan)) ≡ true
unfolding is_connected find same_text c_text
dan_connected = refl

six_free : find ◌==◌ st.clients_connected 6 ≡ none
unfolding find
six_free = refl

five_found : find ◌==◌ st.clients_connected 5 ≡ some row
unfolding find
five_found = refl

has_dan : has_client topic dan ≡ true
unfolding has_client same_text
has_dan = refl

hi-IsMessage : IsMessage (bytes_of "hi")
unfolding starts_with pcom.Subscriber.Framing.is_plain
hi-IsMessage = record {
  plain = refl;
  some_text = omega arith;
  fits = omega arith;
  no_refusal = refl;
  no_exit = refl;
}

listen-send_stored_example :
    listen 2 (bytes_sent (send_stored 5 (lines (bytes_of "hi" ∷ bytes_of "hi" ∷ []))) ++ [])
    ≡ some (lines (bytes_of "hi" ∷ bytes_of "hi" ∷ []))
listen-send_stored_example =
    listen-send_stored 5 [] (messages_cons hi-IsMessage (messages_cons hi-IsMessage messages_nil))

publish-sent_all_example :
    (publish (bytes_of "text") subscribers topic).1 ≡ sent_all (bytes_of "text") subscribers topic
publish-sent_all_example = publish-sent_all (bytes_of "text") subscribers topic

run-AllDistinct_example : Holds AllDistinct (run fixed (start 3 4) (connection 5 [] 8 dan ∷ []))
run-AllDistinct_example = run-AllDistinct fixed 3 4 (connection 5 [] 8 dan ∷ [])
