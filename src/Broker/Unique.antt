-- ===== src/Broker/Unique.antt =====
-- Adding to the vector of a topic and erasing from it leave no client in it twice.
use pcom.Prelude.{
  ℕ, zero, suc, List, [], ◌∷◌, ◌++◌, Option, none, some, Bool, false, ◌≡◌, refl, arith, Bool-cases,
  inl, inr,
}
use pcom.Scan.{same_text, same_text-IsTest}
use pcom.Assoc.{different}
use pcom.Broker.{Subscription}
use pcom.Broker.Commands.{has_client, erase_at, keep_front, add_client}
use pcom.Broker.Publish.{IsDistinct, distinct_nil, distinct_cons}

has_client_append :
    (topic : List Subscription) (s : Subscription) (client_id : List ℕ)
    → has_client topic client_id ≡ false
    → same_text s.client_id client_id ≡ false
    → has_client (topic ++ (s ∷ [])) client_id ≡ false
unfolding has_client
has_client_append [] s client_id h d = rw d refl
has_client_append (u ∷ topic) s client_id h d = ground (arith, has_client_append topic s client_id)

has_client-IsDistinct :
    (topic : List Subscription) (s : Subscription)
    → IsDistinct topic
    → has_client topic s.client_id ≡ false
    → IsDistinct (topic ++ (s ∷ []))
unfolding has_client
has_client-IsDistinct [] s d h = distinct_cons refl distinct_nil
has_client-IsDistinct (u ∷ topic) s (distinct_cons once d) h =
    elim (Bool-cases (same_text u.client_id s.client_id)) [
      | inl t ↦ absurd (ground arith)
      | inr f ↦
          distinct_cons
            (has_client_append topic s u.client_id once (
              different same_text same_text-IsTest u.client_id s.client_id u.client_id f
                (same_text-IsTest.same_refl u.client_id)))
            (has_client-IsDistinct topic s d (ground arith))
    ]

pub add_client-IsDistinct :
    (client_id : List ℕ) (sf : Bool) (topic : List Subscription)
    → IsDistinct topic
    → IsDistinct (add_client client_id sf topic)
unfolding add_client
add_client-IsDistinct client_id sf topic d = elim (Bool-cases (has_client topic client_id)) [
  | inl t ↦ rw t d
  | inr f ↦ rw f (has_client-IsDistinct topic (record { client_id = client_id; sf = sf }) d f)
]

-- A vector, less one element.
data IsWithout : (topic rest : List Subscription) → Type 0 where
  without_here : {s : Subscription} {topic : List Subscription} → IsWithout (s ∷ topic) topic
  without_there :
      {s : Subscription} {topic rest : List Subscription}
      → IsWithout topic rest
      → IsWithout (s ∷ topic) (s ∷ rest)

-- What holds of the vector that is there.
pub data WhenSome (P : List Subscription → Type 0) : Option (List Subscription) → Type 0 where
  when_none : WhenSome P none
  when_some : {topic : List Subscription} → P topic → WhenSome P (some topic)

erase_at-IsWithout :
    (topic : List Subscription) (i : ℕ) → WhenSome (IsWithout topic) (erase_at topic i)
unfolding erase_at keep_front
erase_at-IsWithout [] i = when_none
erase_at-IsWithout (s ∷ topic) zero = when_some without_here
erase_at-IsWithout (s ∷ topic) (suc i) = behind (erase_at topic i) (erase_at-IsWithout topic i)
  where
    behind :
        (o : Option (List Subscription))
        → WhenSome (IsWithout topic) o
        → WhenSome (IsWithout (s ∷ topic)) (keep_front s o)
    behind none w = when_none
    behind (some rest) (when_some w) = when_some (without_there w)

IsWithout-has_client :
    (client_id : List ℕ) {topic rest : List Subscription}
    → IsWithout topic rest
    → has_client topic client_id ≡ false
    → has_client rest client_id ≡ false
unfolding has_client
IsWithout-has_client client_id without_here h = ground arith
IsWithout-has_client client_id (without_there w) h =
    ground (arith, IsWithout-has_client client_id w)

IsWithout-IsDistinct :
    {topic rest : List Subscription} → IsWithout topic rest → IsDistinct topic → IsDistinct rest
IsWithout-IsDistinct without_here (distinct_cons once d) = d
IsWithout-IsDistinct (without_there w) (distinct_cons once d) =
    distinct_cons (IsWithout-has_client _ w once) (IsWithout-IsDistinct w d)

pub erase_at-IsDistinct :
    (topic : List Subscription) (i : ℕ) → IsDistinct topic → WhenSome IsDistinct (erase_at topic i)
erase_at-IsDistinct topic i d = less (erase_at topic i) (erase_at-IsWithout topic i)
  where
    less : (o : Option (List Subscription)) → WhenSome (IsWithout topic) o → WhenSome IsDistinct o
    less none w = when_none
    less (some rest) (when_some w) = when_some (IsWithout-IsDistinct w d)
