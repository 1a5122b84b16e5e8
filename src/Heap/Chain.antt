-- ===== src/Heap/Chain.antt =====
-- Chains of cells in the heap: the addresses grow from the first cell to the last, as `malloc` gives
-- addresses that were never given before.
use pcom.Prelude.{
  ℕ, zero, suc, ◌≤◌, ◌<◌, List, [], ◌∷◌, ◌++◌, Option, none, some, ◌≡◌, ◌≢◌, refl, sym, ap, ◌∙◌,
  arith, length, set, get_elem?, length-append,
}
use pcom.Heap.{Cell, Heap, load, free, store_next}

module _ {A : Type 0} where
  get_elem?-lt : (xs : List A) (i : ℕ) (x : A) → get_elem? xs i ≡ some x → i < length xs
  get_elem?-lt [] i x e = absurd (ground arith)
  get_elem?-lt (y ∷ xs) zero x e = omega arith
  get_elem?-lt (y ∷ xs) (suc i) x e = omega (arith, get_elem?-lt xs i x e)

  pub get_elem?-append :
      (xs : List A) (y : A) (i : ℕ) → i < length xs → get_elem? (xs ++ (y ∷ [])) i ≡ get_elem? xs i
  get_elem?-append [] y i h = absurd (omega arith)
  get_elem?-append (x ∷ xs) y zero h = refl
  get_elem?-append (x ∷ xs) y (suc i) h = get_elem?-append xs y i (omega arith)

  pub get_elem?-append_end : (xs : List A) (y : A) → get_elem? (xs ++ (y ∷ [])) (length xs) ≡ some y
  get_elem?-append_end [] y = refl
  get_elem?-append_end (x ∷ xs) y = get_elem?-append_end xs y

  pub get_elem?-set_self :
      (xs : List A) (i : ℕ) (v : A) → i < length xs → get_elem? (set xs i v) i ≡ some v
  get_elem?-set_self [] i v h = absurd (omega arith)
  get_elem?-set_self (x ∷ xs) zero v h = refl
  get_elem?-set_self (x ∷ xs) (suc i) v h = get_elem?-set_self xs i v (omega arith)

  pub get_elem?-set_ne :
      (xs : List A) (i j : ℕ) (v : A) → i ≢ j → get_elem? (set xs i v) j ≡ get_elem? xs j
  get_elem?-set_ne [] i j v h = refl
  get_elem?-set_ne (x ∷ xs) zero zero v h = absurd (h refl)
  get_elem?-set_ne (x ∷ xs) zero (suc j) v h = refl
  get_elem?-set_ne (x ∷ xs) (suc i) zero v h = refl
  get_elem?-set_ne (x ∷ xs) (suc i) (suc j) v h = get_elem?-set_ne xs i j v (omega arith)

-- A live cell at an address.
abbrev pub HasCell : Heap → ℕ → (element : ℕ) → (next : Option ℕ) → Type 0
HasCell heap p element next =
    get_elem? heap p ≡ some (some (record { element = element; next = next }))

pub load-HasCell :
    (heap : Heap) (p element : ℕ) (next : Option ℕ)
    → HasCell heap p element next
    → load heap (some p) ≡ some (record { element = element; next = next })
unfolding load
load-HasCell heap p element next h = ground (arith, h)

-- The cells from `p` to `last`, with their elements.
pub data IsChain (heap : Heap) : (p last : ℕ) → List ℕ → Type 0 where
  chain_one : {p element : ℕ} → HasCell heap p element none → IsChain heap p p (element ∷ [])
  chain_more :
      {p rest last element : ℕ} {elements : List ℕ}
      → HasCell heap p element (some rest)
      → p < rest
      → IsChain heap rest last elements
      → IsChain heap p last (element ∷ elements)

pub IsChain-ordered :
    (heap : Heap) {p last : ℕ} {elements : List ℕ} → IsChain heap p last elements → p ≤ last
IsChain-ordered heap (chain_one h) = omega arith
IsChain-ordered heap (chain_more h l c) = omega (arith, IsChain-ordered heap c)

pub IsChain-inside :
    (heap : Heap) {p last : ℕ} {elements : List ℕ}
    → IsChain heap p last elements
    → last < length heap
IsChain-inside heap (chain_one {p = p} h) = get_elem?-lt heap p _ h
IsChain-inside heap (chain_more h l c) = IsChain-inside heap c

-- A chain needs its own cells only.
pub IsChain-frame :
    (heap heap' : Heap) {p last : ℕ} {elements : List ℕ}
    → IsChain heap p last elements
    → ((i : ℕ) → p ≤ i → i ≤ last → get_elem? heap' i ≡ get_elem? heap i)
    → IsChain heap' p last elements
IsChain-frame heap heap' (chain_one {p = p} h) same =
    chain_one (same p (omega arith) (omega arith) ∙ h)
IsChain-frame heap heap' (chain_more {p = p} h l c) same =
    chain_more (same p (omega arith) (omega (arith, IsChain-ordered heap c)) ∙ h) l
      (IsChain-frame heap heap' c (λ i a b. same i (omega arith) b))

-- A cell behind the last one is linked to it.
pub IsChain-snoc :
    (heap heap' : Heap) {p last : ℕ} {elements : List ℕ} (fresh element : ℕ)
    → IsChain heap p last elements
    → last < fresh
    → HasCell heap' fresh element none
    → ((x : ℕ) → HasCell heap last x none → HasCell heap' last x (some fresh))
    → ((i : ℕ) → i < last → get_elem? heap' i ≡ get_elem? heap i)
    → IsChain heap' p fresh (elements ++ (element ∷ []))
IsChain-snoc heap heap' fresh element (chain_one {element = x} h) l new link same =
    chain_more (link x h) l (chain_one new)
IsChain-snoc heap heap' fresh element (chain_more {p = p} h m c) l new link same =
    chain_more (same p (omega (arith, IsChain-ordered heap c)) ∙ h) m
      (IsChain-snoc heap heap' fresh element c l new link same)

-- The last cell of a chain.
pub IsChain-last :
    (heap : Heap) {p last : ℕ} {elements : List ℕ}
    → IsChain heap p last elements
    → (x : ℕ) × HasCell heap last x none
IsChain-last heap (chain_one {element = x} h) = (x, h)
IsChain-last heap (chain_more h l c) = IsChain-last heap c

abbrev element_of : Option (Option Cell) → ℕ
element_of none = 0
element_of (some none) = 0
element_of (some (some c)) = c.element

-- What linking a new cell behind a chain does: a cell is made and the old last cell points to it.
abbrev pub linked : Heap → (last x element : ℕ) → Heap
linked heap last x element =
    set (heap ++ (some (record { element = element; next = none }) ∷ [])) last
      (some (record { element = x; next = some (length heap) }))

module _ (heap : Heap) {p last : ℕ} {elements : List ℕ} (c : IsChain heap p last elements) where
  -- Where the new cell stands, and what the old ones are.
  IsChain-linked :
      (x element : ℕ)
      → HasCell heap last x none
      → IsChain (linked heap last x element) p (length heap) (elements ++ (element ∷ []))
  IsChain-linked x element h =
      IsChain-snoc heap (linked heap last x element) (length heap) element c inside new link same
    where
      inside : last < length heap
      inside = IsChain-inside heap c

      made : Heap
      made = heap ++ (some (record { element = element; next = none }) ∷ [])

      longer : last < length made
      longer = omega (
        arith,
        inside,
        length-append heap (some (record { element = element; next = none }) ∷ []),
      )

      new : HasCell (linked heap last x element) (length heap) element none
      new =
          get_elem?-set_ne made last (length heap) _ (omega (arith, inside))
          ∙ get_elem?-append_end heap _

      link :
          (y : ℕ)
          → HasCell heap last y none
          → HasCell (linked heap last x element) last y (some (length heap))
      link y k =
          let e : x ≡ y = ap element_of (sym h ∙ k) in
          get_elem?-set_self made last _ longer ∙ rw e refl

      same : (i : ℕ) → i < last → get_elem? (linked heap last x element) i ≡ get_elem? heap i
      same i l =
          get_elem?-set_ne made last i _ (omega arith)
          ∙ get_elem?-append heap _ i (omega (arith, inside))

  -- Linking a new cell behind the last one, as both queues do it.
  pub store_next-IsChain :
      (element : ℕ)
      → (heap' : Heap) × (store_next
            (heap ++ (some (record { element = element; next = none }) ∷ []))
            last
            (some (length heap))
          ≡ some heap')
        × IsChain heap' p (length heap) (elements ++ (element ∷ []))
  store_next-IsChain element = (
    linked heap last (IsChain-last heap c).0 element,
    stored,
    IsChain-linked (IsChain-last heap c).0 element (IsChain-last heap c).1,
  )
    where
      made : Heap
      made = heap ++ (some (record { element = element; next = none }) ∷ [])

      kept : HasCell made last (IsChain-last heap c).0 none
      kept = get_elem?-append heap _ last (IsChain-inside heap c) ∙ (IsChain-last heap c).1

      stored :
          store_next made last (some (length heap))
          ≡ some (linked heap last (IsChain-last heap c).0 element)
      stored =
          unfold store_next in
          ground (arith, load-HasCell made last (IsChain-last heap c).0 none kept)

-- Freeing the first cell leaves the chain behind it.
pub free-IsChain :
    (heap : Heap) {p rest last : ℕ} {elements : List ℕ}
    → p < rest
    → IsChain heap rest last elements
    → IsChain (free heap p) rest last elements
unfolding free
free-IsChain heap {p} l c =
    IsChain-frame heap (set heap p none) c (λ i a b. get_elem?-set_ne heap p i none (omega arith))
