-- ===== src/Broker/Publish.antt =====
-- A publication: who gets the message now, and for whom it is stored.
use mathlib.Core.Path.{subst, ap₂}
use pcom.Prelude.{
  ℕ, List, [], ◌∷◌, ◌++◌, Option, none, some, Bool, false, if◌then◌else◌, ◌≡◌, refl, sym, ap, ◌∙◌,
  arith, Bool-cases, inl, inr,
}
use pcom.Scan.{same_text, same_text-IsTest}
use pcom.Assoc.{find, find-assign}
use pcom.Broker.{Subscription, Subscriber, Action, send, deliver_to, deliver, publish}
use pcom.Broker.Commands.{has_client}

-- What one subscription means for the subscriber with that name.
abbrev pub stored_for : (text : List ℕ) → Bool → Subscriber → Subscriber
stored_for text sf s =
    if s.connected then s else if sf then record s { packets = s.packets ++ (text ∷ []) } else s

-- The first subscription of a client.
unfoldable pub subscription_of : List Subscription → (client_id : List ℕ) → Option Subscription
subscription_of [] client_id = none
subscription_of (s ∷ topic) client_id =
    let rest = subscription_of topic client_id in
    if same_text s.client_id client_id then some s else rest

-- A vector that has no client twice.
pub data IsDistinct : List Subscription → Type 0 where
  distinct_nil : IsDistinct []
  distinct_cons :
      {s : Subscription} {topic : List Subscription}
      → has_client topic s.client_id ≡ false
      → IsDistinct topic
      → IsDistinct (s ∷ topic)

-- The specification of the entries after a publication.
abbrev pub entry_after :
    (text : List ℕ) → Option Subscription → Option Subscriber → Option Subscriber
entry_after text none entry = entry
entry_after text (some s) none = none
entry_after text (some s) (some entry) = some (stored_for text s.sf entry)

-- The specification of the messages: one for each subscription whose client is connected.
abbrev pub sent_to : (text : List ℕ) → Option Subscriber → List Action
sent_to text none = []
sent_to text (some s) = if s.connected then send s.fd text ∷ [] else []

abbrev pub sent_all : (text : List ℕ) → List (List ℕ × Subscriber) → List Subscription → List Action
sent_all text subscribers [] = []
sent_all text subscribers (s ∷ topic) =
    sent_to text (find same_text subscribers s.client_id) ++ sent_all text subscribers topic

deliver_to-stored :
    (text : List ℕ) (sf : Bool) (s : Subscriber) → (deliver_to text sf s).0 ≡ stored_for text sf s
unfolding deliver_to
deliver_to-stored text sf s = elim (Bool-cases s.connected) [
  | inl t ↦ rw t refl
  | inr f ↦ elim (Bool-cases sf) [ inl t ↦ rw (f, t) refl | inr g ↦ rw (f, g) refl ]
]

find-deliver :
    (text : List ℕ) (subscribers : List (List ℕ × Subscriber)) (s : Subscription)
    (entry : Option Subscriber) (client_id : List ℕ)
    → find same_text subscribers s.client_id ≡ entry
    → find same_text (deliver text subscribers s entry).0 client_id ≡ (
        if same_text s.client_id client_id
        then entry_after text (some s) entry
        else find same_text subscribers client_id)
unfolding deliver
find-deliver text subscribers s none client_id h =
    elim (Bool-cases (same_text s.client_id client_id)) [
      | inl t ↦ rw t (
          ap (find same_text subscribers) (sym (same_text-IsTest.same→eq s.client_id client_id t))
          ∙ h)
      | inr f ↦ rw f refl
    ]
find-deliver text subscribers s (some entry) client_id h =
    find-assign same_text same_text-IsTest subscribers s.client_id _ client_id
    ∙ ap
        (λ e.
          if same_text s.client_id client_id then some e else find same_text subscribers client_id)
        (deliver_to-stored text s.sf entry)

subscription_of-none :
    (topic : List Subscription) (client_id : List ℕ)
    → has_client topic client_id ≡ false
    → subscription_of topic client_id ≡ none
unfolding has_client subscription_of
subscription_of-none [] client_id h = refl
subscription_of-none (s ∷ topic) client_id h = ground (arith, subscription_of-none topic client_id)

-- Where no client stands twice in the vector, a publication stores the message, behind the stored
-- ones, for exactly the clients with `SF` set that are known and not connected; every other entry
-- stays as it is.
pub find-publish :
    (text : List ℕ) (subscribers : List (List ℕ × Subscriber)) (topic : List Subscription)
    (client_id : List ℕ)
    → IsDistinct topic
    → find same_text (publish text subscribers topic).0 client_id
      ≡ entry_after text (subscription_of topic client_id) (find same_text subscribers client_id)
unfolding publish subscription_of
find-publish text subscribers [] client_id distinct_nil = refl
find-publish text subscribers (s ∷ topic) client_id (distinct_cons once d) =
    let delivered = (deliver text subscribers s (find same_text subscribers s.client_id)).0 in
    let later = find-publish text delivered topic client_id d in
    let now =
      find-deliver text subscribers s (find same_text subscribers s.client_id) client_id refl in
    elim (Bool-cases (same_text s.client_id client_id)) [
      | inl t ↦
          let e = same_text-IsTest.same→eq s.client_id client_id t in
          let not_later =
            subst (λ id. subscription_of topic id ≡ none) e
              (subscription_of-none topic s.client_id once) in
          later
          ∙ ap (λ o. entry_after text o (find same_text delivered client_id)) not_later
          ∙ now
          ∙ (rw t (ap (λ id. entry_after text (some s) (find same_text subscribers id)) e))
      | inr f ↦ later ∙ ap (entry_after text (subscription_of topic client_id)) now ∙ (rw f refl)
    ]

-- A publication changes neither who is connected nor where.
sent_to-stored :
    (text other : List ℕ) (sf : Bool) (s : Subscriber)
    → sent_to text (some (stored_for other sf s)) ≡ sent_to text (some s)
sent_to-stored text other sf s = elim (Bool-cases s.connected) [
  | inl t ↦ rw t refl
  | inr f ↦ elim (Bool-cases sf) [ inl t ↦ rw (f, t) refl | inr g ↦ rw (f, g) refl ]
]

sent_to-deliver :
    (text other : List ℕ) (subscribers : List (List ℕ × Subscriber)) (s : Subscription)
    (client_id : List ℕ)
    → sent_to text (
        find same_text
          (deliver other subscribers s (find same_text subscribers s.client_id)).0
          client_id)
      ≡ sent_to text (find same_text subscribers client_id)
sent_to-deliver text other subscribers s client_id =
    ap (sent_to text) (find-deliver other subscribers s _ client_id refl)
    ∙ kept (find same_text subscribers s.client_id) refl
  where
    kept :
        (entry : Option Subscriber)
        → find same_text subscribers s.client_id ≡ entry
        → sent_to text (
            if same_text s.client_id client_id
            then entry_after other (some s) entry
            else find same_text subscribers client_id)
          ≡ sent_to text (find same_text subscribers client_id)
    kept entry h = elim (Bool-cases (same_text s.client_id client_id)) [
      | inr f ↦ rw f refl
      | inl t ↦ rw t (
          after entry
          ∙ ap (sent_to text) (
              sym h
              ∙ ap (find same_text subscribers) (same_text-IsTest.same→eq s.client_id client_id t)))
    ]
      where
        after :
            (entry : Option Subscriber)
            → sent_to text (entry_after other (some s) entry) ≡ sent_to text entry
        after none = refl
        after (some e) = sent_to-stored text other s.sf e

sent_all-deliver :
    (text other : List ℕ) (subscribers : List (List ℕ × Subscriber)) (s : Subscription)
    (topic : List Subscription)
    → sent_all text (deliver other subscribers s (find same_text subscribers s.client_id)).0 topic
      ≡ sent_all text subscribers topic
sent_all-deliver text other subscribers s [] = refl
sent_all-deliver text other subscribers s (u ∷ topic) =
    ap₂ ◌++◌ (sent_to-deliver text other subscribers s u.client_id)
      (sent_all-deliver text other subscribers s topic)

deliver-sent :
    (text : List ℕ) (subscribers : List (List ℕ × Subscriber)) (s : Subscription)
    (entry : Option Subscriber)
    → (deliver text subscribers s entry).1 ≡ sent_to text entry
unfolding deliver deliver_to
deliver-sent text subscribers s none = refl
deliver-sent text subscribers s (some e) = elim (Bool-cases e.connected) [
  | inl t ↦ rw t refl
  | inr f ↦ elim (Bool-cases s.sf) [ inl t ↦ rw (f, t) refl | inr g ↦ rw (f, g) refl ]
]

-- A publication sends the message once for each subscription of the topic whose client is connected,
-- in the order of the subscriptions, to the client's socket, and sends nothing else.
pub publish-sent_all :
    (text : List ℕ) (subscribers : List (List ℕ × Subscriber)) (topic : List Subscription)
    → (publish text subscribers topic).1 ≡ sent_all text subscribers topic
unfolding publish
publish-sent_all text subscribers [] = refl
publish-sent_all text subscribers (s ∷ topic) = ap₂ ◌++◌ (deliver-sent text subscribers s _) (
    publish-sent_all text (deliver text subscribers s (find same_text subscribers s.client_id)).0
      topic
    ∙ sent_all-deliver text text subscribers s topic)
