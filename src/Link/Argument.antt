-- ===== src/Link/Argument.antt =====
-- What an argument of the link emulator is read as.
use pcom.Prelude.{
  ℕ, ◌+◌, ◌≤◌, ◌<◌, List, [], ◌∷◌, ◌++◌, append_assoc, append-nil, ◌≡◌, ◌≢◌, ap, ◌∙◌, arith, some,
  ne→==, length, length-append, drop, All,
}
use pcom.Link.Params.{
  Parameter, param, undefined, parameter_of, atof_text, split_value, split_loop, split_param,
}

split_loop-name :
    (before name value : List ℕ)
    → All (λ c. c ≢ 61) name
    → length before + length name < 100
    → split_loop before (name ++ (61 ∷ value)) ≡ split_value (before ++ name) value
unfolding split_loop
split_loop-name before [] value h l =
    ground (arith, ap (λ xs. split_value xs value) (append-nil before))
split_loop-name before (c ∷ name) value (n, h) l = rw (ne→== _ _ n) (
    split_loop-name (before ++ (c ∷ [])) name value h (omega (arith, length-append before (c ∷ [])))
    ∙ ap (λ xs. split_value xs value) (append_assoc before (c ∷ []) name))

module _ (name value : List ℕ) (parameter : Parameter) (h : All (λ c. c ≢ 61) name)
    (p : parameter_of name ≡ some parameter) (l : length name < 100) where
  -- For a known name in front of the first `=`, and a value not longer than it, the number is read
  -- from the value followed by what is left of the name behind as many characters.
  pub split_param-text :
      length value ≤ length name
      → split_param (name ++ (61 ∷ value)) ≡ param parameter (value ++ drop (length value) name)
  unfolding split_param split_value atof_text
  split_param-text short = split_loop-name [] name value h (omega arith) ∙ ground (arith, p)

  -- A value longer than its known name is read, without a NUL, into bytes that were never written.
  pub split_param-long : length name < length value → split_param (name ++ (61 ∷ value)) ≡ undefined
  unfolding split_param split_value atof_text
  split_param-long long = split_loop-name [] name value h (omega arith) ∙ ground (arith, p)
