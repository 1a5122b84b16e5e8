-- ===== src/Text.antt =====
-- C strings: lists of bytes without the closing NUL, and the functions of <string.h> on them.
use Prim.Native.String.{String}
use Prim.Native.Char.{code}
use pcom.Prelude.{
  ℕ, ◌+◌, List, [], ◌∷◌, Option, none, some, Bool, true, false, ◌==◌, ◌&&◌, if◌then◌else◌,
}

-- The bytes of a literal.
abbrev pub bytes_of : String → List ℕ
bytes_of String.[] = []
bytes_of (String.◌∷◌ c s) = code c ∷ bytes_of s

-- `strncmp(text, pattern, strlen(pattern)) == 0`
unfoldable pub starts_with : (pattern text : List ℕ) → Bool
starts_with [] text = true
starts_with (c ∷ pattern) [] = false
starts_with (c ∷ pattern) (d ∷ text) = (c == d) && starts_with pattern text

-- `strstr(text, pattern)`, as an offset.
unfoldable pub strstr : (text pattern : List ℕ) → Option ℕ
strstr [] pattern = if starts_with pattern [] then some 0 else none
strstr (c ∷ text) pattern =
    let rest = strstr text pattern in
    if starts_with pattern (c ∷ text)
    then some 0
    else elim rest [ none ↦ none | some i ↦ some (i + 1) ]

-- `text[strcspn(text, "\n")] = 0`: the text before the first line break.
unfoldable pub strip_newline : List ℕ → List ℕ
strip_newline [] = []
strip_newline (c ∷ text) = let rest = strip_newline text in if c == 10 then [] else c ∷ rest
