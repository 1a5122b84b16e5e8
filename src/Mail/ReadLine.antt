-- ===== src/Mail/ReadLine.antt =====
-- What `read_line` of Lab11/send_mail.c returns and stores.
use pcom.Prelude.{
  ℕ, zero, suc, ◌+◌, ◌-◌, ◌≤◌, ◌<◌, List, [], ◌∷◌, ◌++◌, append_assoc, ◌≡◌, ◌≢◌, sym, append-nil,
  ne→==, ◌∙◌, arith, ◌==◌, Bool-cases, inl, inr, length, length-append, All,
}
use mathlib.Core.Path.{ap₂}
use pcom.Mail.{
  Read, byte, eof, interrupted, broken, Line, line, closed, failed, blocked, read_loop, read_line,
}

-- The reads of a text.
abbrev pub read_bytes : List ℕ → List Read → List Read
read_bytes [] reads = reads
read_bytes (c ∷ text) reads = byte c ∷ read_bytes text reads

read_loop-line :
    (rest n : ℕ) (before text : List ℕ) (reads : List Read)
    → All (λ c. c ≢ 10) text
    → length text < rest
    → read_loop rest n before (read_bytes text (byte 10 ∷ reads))
      ≡ line ((before ++ text) ++ (10 ∷ [])) (n + length text) reads
unfolding read_loop
read_loop-line zero n before text reads h lt = absurd (omega arith)
read_loop-line (suc rest) n before [] reads h lt =
    ap₂ (λ xs k. line (xs ++ (10 ∷ [])) k reads) (sym (append-nil before)) (omega arith)
read_loop-line (suc rest) n before (c ∷ text) reads (ne, h) lt = rw (ne→== _ _ ne) (
    read_loop-line rest (n + 1) (before ++ (c ∷ [])) text reads h (omega arith)
    ∙ ap₂ (λ xs k. line (xs ++ (10 ∷ [])) k reads) (append_assoc before (c ∷ []) text)
        (omega arith))

-- A line that is shorter than the buffer is returned whole, with its line break and the number of
-- its bytes, and nothing behind it is read.
pub read_line-line :
    (maxlen : ℕ) (text : List ℕ) (reads : List Read)
    → All (λ c. c ≢ 10) text
    → length text + 1 < maxlen
    → read_line maxlen (read_bytes text (byte 10 ∷ reads))
      ≡ line (text ++ (10 ∷ [])) (1 + length text) reads
unfolding read_line
read_line-line maxlen text reads h lt = read_loop-line (maxlen - 1) 1 [] text reads h (omega arith)

-- What every result of `read_line` keeps to.
pub data IsLine (maxlen : ℕ) : Line → Type 0 where
  is_line :
      {text : List ℕ} {n : ℕ} {reads : List Read}
      → length text ≤ n
      → length text < maxlen
      → n ≤ maxlen
      → IsLine maxlen (line text n reads)
  is_closed : {reads : List Read} → IsLine maxlen (closed reads)
  is_failed : IsLine maxlen failed
  is_blocked : IsLine maxlen blocked

read_loop-IsLine :
    (maxlen rest n : ℕ) (text : List ℕ) (reads : List Read)
    → n + rest ≡ maxlen
    → 1 ≤ n
    → length text + 1 ≤ n
    → IsLine maxlen (read_loop rest n text reads)
unfolding read_loop
read_loop-IsLine maxlen zero n text reads e p h = is_line (omega arith) (omega arith) (omega arith)
read_loop-IsLine maxlen (suc rest) n text [] e p h = is_blocked
read_loop-IsLine maxlen (suc rest) n text (byte c ∷ reads) e p h = elim (Bool-cases (c == 10)) [
  | inl t ↦ rw t (
      is_line (omega (arith, length-append text (c ∷ [])))
        (omega (arith, length-append text (c ∷ []))) (omega arith))
  | inr f ↦ rw f (
      read_loop-IsLine maxlen rest (n + 1) (text ++ (c ∷ [])) reads (omega arith) (omega arith)
        (omega (arith, length-append text (c ∷ []))))
]
read_loop-IsLine maxlen (suc rest) n text (eof ∷ reads) e p h = elim (Bool-cases (n == 1)) [
  | inl t ↦ rw t is_closed
  | inr f ↦ rw f (is_line (omega arith) (omega arith) (omega arith))
]
read_loop-IsLine maxlen (suc rest) n text (interrupted ∷ reads) e p h =
    read_loop-IsLine maxlen rest (n + 1) text reads (omega arith) (omega arith) (omega arith)
read_loop-IsLine maxlen (suc rest) n text (broken ∷ reads) e p h = is_failed

-- Whatever is read, the text and its NUL fit in the buffer, and the number returned is at least the
-- number of bytes stored and at most `maxlen`.
pub read_line-IsLine :
    (maxlen : ℕ) (reads : List Read) → 0 < maxlen → IsLine maxlen (read_line maxlen reads)
unfolding read_line
read_line-IsLine maxlen reads h =
    read_loop-IsLine maxlen (maxlen - 1) 1 [] reads (omega arith) (omega arith) (omega arith)
