-- ===== src/Buffer/Laws.antt =====
-- The buffer holds what was added to it, in order.
use pcom.Prelude.{
  ℕ, zero, suc, ◌+◌, ◌-◌, ◌<◌, List, [], ◌∷◌, ◌++◌, ◌≡◌, ◌∙◌, sym, ap, refl, arith, length,
  length-append, length-take, dec_lt, inl, replicate, Option, none, some,
}
use pcom.Bytes.{
  load8, patch, length-patch, load8_ext, load8-patch_outside, load8-patch_inside, load8-take,
}
use pcom.Buffer.{Buffer, bytes, realloc, buffer_init, buffer_add}

-- `size` is the number of the bytes.
pub record IsBuffer (b : Buffer) : Type 0 where
  pub measured : length (bytes b) ≡ b.size

load8-append_left : (xs ys : List ℕ) (i : ℕ) → i < length xs → load8 (xs ++ ys) i ≡ load8 xs i
load8-append_left [] ys i h = absurd (omega arith)
load8-append_left (x ∷ xs) ys zero h = refl
load8-append_left (x ∷ xs) ys (suc i) h = load8-append_left xs ys i (omega arith)

load8-append_right : (xs ys : List ℕ) (k : ℕ) → load8 (xs ++ ys) (length xs + k) ≡ load8 ys k
load8-append_right [] ys k = ap (load8 ys) (omega arith)
load8-append_right (x ∷ xs) ys k =
    let e : suc (length xs) + k ≡ suc (length xs + k) = omega arith in
    rw e (load8-append_right xs ys k)

-- A copy that fills the rest of a block.
patch-append :
    (old block text : List ℕ)
    → length block ≡ length old + length text
    → ((i : ℕ) → i < length old → load8 block i ≡ load8 old i)
    → patch block (length old) text ≡ old ++ text
patch-append old block text l same =
    load8_ext _ _ (length-patch block (length old) text ∙ l ∙ sym (length-append old text)) λ i h.
      elim (dec_lt i (length old)) [
        | yes a ↦
            load8-patch_outside block (length old) text i (inl a)
            ∙ same i a
            ∙ sym (load8-append_left old text i a)
        | no b ↦
            (let e : i ≡ length old + (i - length old) = omega arith in
              rw e (
                load8-patch_inside block (length old) text (i - length old) (omega arith)
                  (omega (arith, length-patch block (length old) text))
                ∙ sym (load8-append_right old text (i - length old))))
      ]

length-replicate : (n a : ℕ) → length (replicate n a) ≡ n
length-replicate zero a = refl
length-replicate (suc n) a = ap suc (length-replicate n a)

-- `realloc` keeps the old bytes.
realloc-kept :
    (old : List ℕ) (n : ℕ)
    → (length (realloc old (length old + n)) ≡ length old + n)
      × ((i : ℕ) → i < length old → load8 (realloc old (length old + n)) i ≡ load8 old i)
unfolding realloc
realloc-kept old n =
    let filler : List ℕ = replicate (length old + n) 0 in
    (
      omega (
        arith,
        length-take (length old + n) (old ++ filler),
        length-append old filler,
        length-replicate (length old + n) 0,
      ),
      λ i h.
          load8-take (length old + n) (old ++ filler) i (omega arith)
          ∙ load8-append_left old filler i h,
    )

-- Adding puts the text behind what the buffer holds, and keeps `size` its length.
pub buffer_add-append :
    (b : Buffer) (text : List ℕ)
    → IsBuffer b
    → (bytes (buffer_add b text) ≡ bytes b ++ text) × IsBuffer (buffer_add b text)
unfolding buffer_add
buffer_add-append b text v = added b.block b.size v.measured
  where
    added :
        (block : Option (List ℕ)) (size : ℕ)
        → length (bytes (record { block = block; size = size })) ≡ size
        → (bytes (buffer_add (record { block = block; size = size }) text)
            ≡ bytes (record { block = block; size = size }) ++ text)
          × IsBuffer (buffer_add (record { block = block; size = size }) text)
    added none size m =
        let filled =
          patch-append [] (replicate (length text) 0) text
            (length-replicate (length text) 0 ∙ omega arith) (λ i h. absurd (omega arith)) in
        rw (← m) (filled, record { measured = ap length filled ∙ omega arith })
    added (some old) size m =
        let (grown, same) = realloc-kept old (length text) in
        let filled = patch-append old (realloc old (length old + length text)) text grown same in
        rw (← m) (filled, record { measured = ap length filled ∙ length-append old text })

-- A new buffer is empty, and so is a destroyed one, which is the new one again.
pub buffer_init-IsBuffer : IsBuffer buffer_init
unfolding buffer_init
buffer_init-IsBuffer = record { measured = refl }
