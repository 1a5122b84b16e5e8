-- ===== src/Link/Params.antt =====
-- The command line of Lab02/link_emulator/link.c.
use pcom.Prelude.{
  ℕ, ◌+◌, List, [], ◌∷◌, ◌++◌, Option, none, some, Bool, true, false, ltb, leb, ◌==◌, ◌&&◌,
  if◌then◌else◌, length, drop,
}
use pcom.Text.{bytes_of}

pub data Parameter : Type 0 where
  speed delay loss corrupt : Parameter

-- What `split_param` gives: the parameter and the string that `atof` reads, an unknown name, or a
-- read of bytes of `c` that were not written, or a write behind them.
pub data Split : Type 0 where
  param : Parameter → List ℕ → Split
  unknown undefined : Split

-- `tolower` on ASCII, as `strcasecmp` compares.
unfoldable pub lower : ℕ → ℕ
lower c = if leb 65 c && leb c 90 then c + 32 else c

-- `!strcasecmp(c, name)`
unfoldable pub same_name : (c name : List ℕ) → Bool
same_name [] [] = true
same_name [] (d ∷ name) = false
same_name (x ∷ c) [] = false
same_name (x ∷ c) (d ∷ name) = (lower x == lower d) && same_name c name

unfoldable pub parameter_of : List ℕ → Option Parameter
parameter_of c =
    if same_name c (bytes_of "speed")
    then some speed
    else if same_name c (bytes_of "delay")
    then some delay
    else if same_name c (bytes_of "loss")
    then some loss
    else if same_name c (bytes_of "corrupt")
    then some corrupt
    else none

-- The string in `c` when `value` was written over the start of `name` and its NUL: without a NUL of
-- its own, it goes on with what is left of the name.
unfoldable pub atof_text : (name value : List ℕ) → Option (List ℕ)
atof_text name value =
    if leb (length value) (length name) then some (value ++ drop (length value) name) else none

-- The characters behind the first `=`, if the 100 bytes of `c` hold them.
unfoldable pub split_value : (name value : List ℕ) → Split
split_value name value = elim (parameter_of name) [
  | none ↦ unknown
  | some parameter ↦
      (if ltb 100 (length value)
        then undefined
        else (elim (atof_text name value) [ none ↦ undefined | some text ↦ param parameter text ]))
]

-- The loop of `split_param` before the first `=`; `name` is what `c` holds.
unfoldable pub split_loop : (name p : List ℕ) → Split
split_loop name [] = undefined
split_loop name (x ∷ p) =
    let rest = split_loop (name ++ (x ∷ [])) p in
    if x == 61 then (if ltb (length name) 100 then split_value name p else undefined) else rest

-- `split_param`
unfoldable pub split_param : List ℕ → Split
split_param p = split_loop [] p
