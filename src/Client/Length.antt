-- ===== src/Client/Length.antt =====
-- The `Content-Length` that the requests of Teme/Tema3/client.c announce.
use pcom.Prelude.{
  ℕ, ◌+◌, List, ◌++◌, append_assoc, ◌≡◌, sym, ap, ◌∙◌, arith, ℤ, pos, length, length-append,
}
use pcom.Text.{bytes_of}
use pcom.Client.Messages.{
  crlf, decimal, credentials_body, credentials_message, book_body, announced, host,
}

-- A request: what stands before the number, the number, a blank line, and the rest.
abbrev pub framed : (head : List ℕ) (number : ℕ) (rest : List ℕ) → List ℕ
framed head number rest = (head ++ (decimal (pos number) ++ (crlf ++ crlf))) ++ rest

pub length-credentials_body :
    (name pass : List ℕ) → length (credentials_body name pass) ≡ 29 + length pass + length name
unfolding credentials_body
length-credentials_body name pass = omega (
  arith,
  length-append name (bytes_of "\",\"password\":\"" ++ (pass ++ bytes_of "\"}")),
  length-append pass (bytes_of "\"}"),
)

-- The requests to register and to log in announce the length of their JSON text, and end with that
-- text and a line break.
pub credentials_message-framed :
    (path name pass : List ℕ)
    → (head : List ℕ) × (credentials_message path name pass
        ≡ framed head (length (credentials_body name pass)) (credentials_body name pass ++ crlf))
unfolding credentials_message
credentials_message-framed path name pass =
    let before = bytes_of "Content-Type: application/json\r\nContent-Length: " in
    let start = bytes_of "POST /api/v1/tema/auth/" in
    let number = decimal (pos (29 + length pass + length name)) ++ (crlf ++ crlf) in
    (
      start ++ (path ++ (host ++ before)),
      rw (length-credentials_body name pass) (
          ap (λ xs. xs ++ (credentials_body name pass ++ crlf))
            (sym (
              append_assoc start (path ++ (host ++ before)) number
              ∙ ap (λ xs. start ++ xs)
                  (append_assoc path (host ++ before) number
                    ∙ ap (λ xs. path ++ xs) (append_assoc host before number))))),
    )

length-book_body :
    (title author genre publisher : List ℕ) (page_count : ℤ)
    → length (book_body title author genre publisher page_count)
      ≡ 64
        + length title
        + length author
        + length genre
        + length publisher
        + length (decimal page_count)
unfolding book_body
length-book_body title author genre publisher page_count =
    let tail = decimal page_count ++ bytes_of "}" in
    let after_publisher = bytes_of "\",\"page_count\":" ++ tail in
    let after_genre = bytes_of "\",\"publisher\":\"" ++ (publisher ++ after_publisher) in
    let after_author = bytes_of "\",\"genre\":\"" ++ (genre ++ after_genre) in
    omega (
      arith,
      length-append title (bytes_of "\",\"author\":\"" ++ (author ++ after_author)),
      length-append author after_author,
      length-append genre after_genre,
      length-append publisher after_publisher,
      length-append (decimal page_count) (bytes_of "}"),
    )

-- The request to add a book announces the length of its JSON text and of the line break behind it,
-- where the page count is printed with as many characters as it was typed with.
pub announced-eq-length :
    (atoi : List ℕ → ℤ) (title author genre publisher page_count : List ℕ)
    → length (decimal (atoi page_count)) ≡ length page_count
    → announced title author genre publisher page_count
      ≡ length (book_body title author genre publisher (atoi page_count) ++ crlf)
unfolding announced
announced-eq-length atoi title author genre publisher page_count h = omega (
  arith,
  length-book_body title author genre publisher (atoi page_count),
  length-append (book_body title author genre publisher (atoi page_count)) crlf,
)
