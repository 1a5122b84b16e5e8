-- ===== src/Http.antt =====
-- The request builder of Lab10/requests.c. A request is its lines, each closed by a line break.
pub mod Length
use pcom.Prelude.{
  ℕ, zero, suc, ◌+◌, List, [], ◌∷◌, ◌++◌, Option, none, some, Bool, true, false, ltb, ◌&&◌,
  if◌then◌else◌, pos, length,
}
use pcom.Text.{bytes_of}
use pcom.Helpers.{compute_message}
use pcom.Client.Messages.{decimal}

-- `strcat(line, cookies[i]); strcat(line, ";");`
unfoldable pub cookie_line : List (List ℕ) → List ℕ
cookie_line [] = []
cookie_line (cookie ∷ cookies) = cookie ++ (59 ∷ cookie_line cookies)

-- The `Cookie` header, where `cookies` is not `NULL`.
unfoldable pub cookie_lines : Option (List (List ℕ)) → List (List ℕ)
cookie_lines none = []
cookie_lines (some cookies) = (bytes_of "Cookie: " ++ cookie_line cookies) ∷ []

unfoldable pub first_line : (url : List ℕ) → (query_params : Option (List ℕ)) → List ℕ
first_line url none = bytes_of "GET " ++ (url ++ bytes_of " HTTP/1.1")
first_line url (some query_params) =
    bytes_of "GET " ++ (url ++ (63 ∷ (query_params ++ bytes_of " HTTP/1.1")))

-- The calls of `compute_message` for the lines, in order.
unfoldable pub add_lines : List ℕ → List (List ℕ) → List ℕ
add_lines message [] = message
add_lines message (line ∷ lines) = add_lines (compute_message message line) lines

-- Every line fits in `LINELEN` bytes with its NUL.
unfoldable pub lines_fit : List (List ℕ) → Bool
lines_fit [] = true
lines_fit (line ∷ lines) = ltb (length line) 1000 && lines_fit lines

-- The message in its `BUFLEN` bytes; `none` is a write behind one of the arrays.
unfoldable pub build : List (List ℕ) → Option (List ℕ)
build lines =
    if lines_fit lines && ltb (length (add_lines [] lines)) 4096
    then some (add_lines [] lines)
    else none

-- `compute_get_request`
unfoldable pub compute_get_request :
    (host url : List ℕ) → Option (List ℕ) → Option (List (List ℕ)) → Option (List ℕ)
compute_get_request host url query_params cookies = build (
    first_line url query_params
    ∷ ((bytes_of "Host: " ++ host) ∷ (cookie_lines cookies ++ ([] ∷ []))))

-- `body_data_buffer` behind the loop: the fields, with `&` between them.
unfoldable pub body_data_buffer : List (List ℕ) → List ℕ
body_data_buffer [] = []
body_data_buffer (field ∷ []) = field
body_data_buffer (field ∷ (next ∷ fields)) = field ++ (38 ∷ body_data_buffer (next ∷ fields))

-- `contentLen` behind the loop.
unfoldable pub content_len : List (List ℕ) → ℕ
content_len [] = 0
content_len (field ∷ []) = length field
content_len (field ∷ (next ∷ fields)) = length field + 1 + content_len (next ∷ fields)

-- The lines of `compute_post_request`.
unfoldable pub post_lines :
    (host url content_type : List ℕ) (body_data : List (List ℕ))
    → Option (List (List ℕ))
    → List (List ℕ)
post_lines host url content_type body_data cookies =
    (bytes_of "POST " ++ (url ++ bytes_of " HTTP/1.1"))
    ∷ ((bytes_of "Host: " ++ host)
        ∷ ((bytes_of "Content-Type: " ++ content_type)
            ∷ ((bytes_of "Content-Length: " ++ decimal (pos (content_len body_data)))
                ∷ (cookie_lines cookies ++ ([] ∷ (body_data_buffer body_data ∷ []))))))

-- `compute_post_request`
unfoldable pub compute_post_request :
    (host url content_type : List ℕ) (body_data : List (List ℕ))
    → Option (List (List ℕ))
    → Option (List ℕ)
compute_post_request host url content_type body_data cookies =
    build (post_lines host url content_type body_data cookies)
