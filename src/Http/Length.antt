-- ===== src/Http/Length.antt =====
-- What a POST request of Lab10/requests.c announces and ends with.
use pcom.Prelude.{
  ℕ, ◌<◌, List, [], ◌∷◌, ◌++◌, append_assoc, ◌≡◌, refl, sym, ap, ◌∙◌, arith, Option, some, ltb,
  ◌&&◌, Bool-cases, inl, inr, pos, length, length-append,
}
use mathlib.Core.Option.{some-injective, none-ne-some}
use pcom.Text.{bytes_of}
use pcom.Helpers.{compute_message}
use pcom.Client.Messages.{decimal}
use pcom.Http.{
  cookie_lines, add_lines, lines_fit, build, body_data_buffer, content_len, post_lines,
  compute_post_request,
}

pub content_len-eq-length :
    (body_data : List (List ℕ)) → content_len body_data ≡ length (body_data_buffer body_data)
unfolding content_len body_data_buffer
content_len-eq-length [] = refl
content_len-eq-length (field ∷ []) = refl
content_len-eq-length (field ∷ (next ∷ fields)) = omega (
  arith,
  content_len-eq-length (next ∷ fields),
  length-append field (38 ∷ body_data_buffer (next ∷ fields)),
)

add_lines-append :
    (message : List ℕ) (xs ys : List (List ℕ))
    → add_lines message (xs ++ ys) ≡ add_lines (add_lines message xs) ys
unfolding add_lines
add_lines-append message [] ys = refl
add_lines-append message (x ∷ xs) ys = add_lines-append (compute_message message x) xs ys

build-fits :
    (lines : List (List ℕ)) {message : List ℕ}
    → build lines ≡ some message
    → (message ≡ add_lines [] lines) × (length message < 4096)
unfolding build
build-fits lines {message} e =
    elim (Bool-cases (lines_fit lines && ltb (length (add_lines [] lines)) 4096)) [
      | inr f ↦ absurd (none-ne-some _ (rw f at e))
      | inl t ↦
          (let same = some-injective _ _ (rw t at e) in (sym same, rw (← same) (ground arith)))
    ]

-- The header of a POST request, to the line that announces the length.
abbrev pub announcing : (host url content_type : List ℕ) (number : ℕ) → List (List ℕ)
announcing host url content_type number =
    (bytes_of "POST " ++ (url ++ bytes_of " HTTP/1.1"))
    ∷ ((bytes_of "Host: " ++ host)
        ∷ ((bytes_of "Content-Type: " ++ content_type)
            ∷ ((bytes_of "Content-Length: " ++ decimal (pos number)) ∷ [])))

-- A POST request that is built fits in its array; its lines announce the length of the body, and
-- behind the blank line the body is all that stands but for a line break.
pub compute_post_request-framed :
    (host url content_type : List ℕ) (body_data : List (List ℕ)) (cookies : Option (List (List ℕ)))
    {message : List ℕ}
    → compute_post_request host url content_type body_data cookies ≡ some message
    → (message
        ≡ compute_message
            (compute_message
              (add_lines [] (
                announcing host url content_type (length (body_data_buffer body_data))
                ++ cookie_lines cookies))
              [])
            (body_data_buffer body_data))
      × (length message < 4096)
unfolding compute_post_request post_lines add_lines
compute_post_request-framed host url content_type body_data cookies e =
    let (same, fits) = build-fits _ e in
    (
      same
          ∙ ap
              (λ number. add_lines [] (
                announcing host url content_type number
                ++ (cookie_lines cookies ++ ([] ∷ (body_data_buffer body_data ∷ [])))))
              (content_len-eq-length body_data)
          ∙ ap (add_lines []) (
              sym (
                append_assoc
                  (announcing host url content_type (length (body_data_buffer body_data)))
                  (cookie_lines cookies) ([] ∷ (body_data_buffer body_data ∷ []))))
          ∙ add_lines-append []
              (announcing host url content_type (length (body_data_buffer body_data))
                ++ cookie_lines cookies)
              ([] ∷ (body_data_buffer body_data ∷ [])),
      fits,
    )
