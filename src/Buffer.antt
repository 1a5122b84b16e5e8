-- ===== src/Buffer.antt =====
-- The growing buffer of Teme/Tema3/buffer.c.
pub mod Laws
pub mod Find
use pcom.Prelude.{
  ℕ, zero, suc, ◌+◌, ◌-◌, List, [], ◌∷◌, ◌++◌, Option, none, some, Bool, true, false, ltb, ◌==◌,
  if◌then◌else◌, ℤ, pos, negsuc, length, take, replicate,
}
use pcom.Bytes.{load8, patch}

-- `buffer`, its member `data` here `block`; `none` is `NULL`.
pub record Buffer : Type 0 where
  pub block : Option (List ℕ)
  pub size : ℕ

-- `buffer_init`
unfoldable pub buffer_init : Buffer
buffer_init = record { block = none; size = 0 }

-- `buffer_destroy`
unfoldable pub buffer_destroy : Buffer → Buffer
buffer_destroy b = record { block = none; size = 0 }

-- `buffer_is_empty`
unfoldable pub buffer_is_empty : Buffer → Bool
buffer_is_empty b = elim b.block [ none ↦ true | some bytes ↦ false ]

-- `realloc`, its new bytes taken as 0: `buffer_add` writes over all of them.
unfoldable pub realloc : List ℕ → ℕ → List ℕ
realloc old n = take n (old ++ replicate n 0)

-- `buffer_add`, where `data_size` is the length of the text.
unfoldable pub buffer_add : Buffer → List ℕ → Buffer
buffer_add b text =
    let grown : List ℕ = elim b.block [
      | some old ↦ realloc old (b.size + length text)
      | none ↦ replicate (length text) 0
    ] in
    record { block = some (patch grown b.size text); size = b.size + length text }

-- The bytes at `block`; a null pointer is never read, since its `size` is 0.
abbrev pub bytes : Buffer → List ℕ
bytes b = elim b.block [ none ↦ [] | some block ↦ block ]

-- The inner loop at `j`, with `rest` rounds left: where it stops. `key` is what is compared.
unfoldable pub match_length : (ℕ → ℕ) → (buffer text : List ℕ) → ℕ → (rest j : ℕ) → ℕ
match_length key buffer text i zero j = j
match_length key buffer text i (suc rest) j =
    let go = match_length key buffer text i rest (j + 1) in
    if key (load8 buffer (i + j)) == key (load8 text j) then go else j

-- The outer loop at `i`, with `rest` rounds left.
unfoldable pub find_loop : (ℕ → ℕ) → (buffer text : List ℕ) → (rest i : ℕ) → ℤ
find_loop key buffer text zero i = negsuc 0
find_loop key buffer text (suc rest) i =
    let go = find_loop key buffer text rest (i + 1) in
    if match_length key buffer text i (length text) 0 == length text then pos i else go

-- `buffer_find`; the index is below 2 ^ 31, as it is returned in an `int`.
unfoldable pub buffer_find : Buffer → List ℕ → ℤ
buffer_find b text =
    if ltb b.size (length text)
    then negsuc 0
    else find_loop (λ c. c) (bytes b) text (b.size - length text + 1) 0

-- `buffer_find_insensitive`; `tolower` is the C library's.
unfoldable pub buffer_find_insensitive : (tolower : ℕ → ℕ) → Buffer → List ℕ → ℤ
buffer_find_insensitive tolower b text =
    if ltb b.size (length text)
    then negsuc 0
    else find_loop tolower (bytes b) text (b.size - length text + 1) 0
