-- ===== src/Client/Messages.antt =====
-- The requests that Teme/Tema3/client.c writes with `sprintf`.
use pcom.Prelude.{
  ℕ, zero, suc, ◌+◌, ◌/◌, ◌%◌, List, [], ◌∷◌, ◌++◌, ltb, if◌then◌else◌, ℤ, pos, negsuc, length,
}
use pcom.Text.{bytes_of}

-- The decimal digits of a number, by as many divisions as `fuel`.
unfoldable pub digits : ℕ → ℕ → List ℕ
digits zero n = []
digits (suc fuel) n =
    let rest = digits fuel (n / 10) in
    if ltb n 10 then (48 + n) ∷ [] else rest ++ ((48 + n % 10) ∷ [])

-- `%d` of an `int`, which has at most ten digits.
unfoldable pub decimal : ℤ → List ℕ
decimal (pos n) = digits 10 n
decimal (negsuc n) = 45 ∷ digits 10 (n + 1)

abbrev pub crlf : List ℕ
crlf = 13 ∷ 10 ∷ []

abbrev pub host : List ℕ
host = bytes_of " HTTP/1.1\r\nHost: 34.118.48.238\r\n"

-- `{"username":"%s","password":"%s"}`
unfoldable pub credentials_body : (name pass : List ℕ) → List ℕ
credentials_body name pass =
    bytes_of "{\"username\":\""
    ++ (name ++ (bytes_of "\",\"password\":\"" ++ (pass ++ bytes_of "\"}")))

-- The requests of `register` and `login`, which differ in the last word of the path.
unfoldable pub credentials_message : (path name pass : List ℕ) → List ℕ
credentials_message path name pass =
    let len = 29 + length pass + length name in
    (bytes_of "POST /api/v1/tema/auth/"
      ++ (path
          ++ (host
              ++ (bytes_of "Content-Type: application/json\r\nContent-Length: "
                  ++ (decimal (pos len) ++ (crlf ++ crlf))))))
    ++ (credentials_body name pass ++ crlf)

unfoldable pub access_message : (cookie : List ℕ) → List ℕ
access_message cookie =
    bytes_of "GET /api/v1/tema/library/access"
    ++ (host ++ (bytes_of "Cookie: " ++ (cookie ++ (crlf ++ crlf))))

-- The two headers of the session that close a request without a body.
unfoldable pub session_headers : (jwt cookie : List ℕ) → List ℕ
session_headers jwt cookie =
    bytes_of "Authorization: Bearer "
    ++ (jwt ++ (crlf ++ (bytes_of "Cookie: " ++ (cookie ++ crlf))))

unfoldable pub books_message : (jwt cookie : List ℕ) → List ℕ
books_message jwt cookie =
    bytes_of "GET /api/v1/tema/library/books" ++ (host ++ (session_headers jwt cookie ++ crlf))

unfoldable pub book_message : (id jwt cookie : List ℕ) → List ℕ
book_message id jwt cookie =
    bytes_of "GET /api/v1/tema/library/books/"
    ++ (id ++ (host ++ (session_headers jwt cookie ++ crlf)))

unfoldable pub delete_message : (id jwt cookie : List ℕ) → List ℕ
delete_message id jwt cookie =
    bytes_of "DELETE /api/v1/tema/library/books/"
    ++ (id ++ (host ++ (session_headers jwt cookie ++ crlf)))

unfoldable pub logout_message : (jwt cookie : List ℕ) → List ℕ
logout_message jwt cookie =
    bytes_of "GET /api/v1/tema/auth/logout" ++ (host ++ (session_headers jwt cookie ++ crlf))

-- `payload`, with the number that `atoi` reads in `page_count`.
unfoldable pub book_body : (title author genre publisher : List ℕ) → (page_count : ℤ) → List ℕ
book_body title author genre publisher page_count =
    bytes_of "{\"title\":\""
    ++ (title
        ++ (bytes_of "\",\"author\":\""
            ++ (author
                ++ (bytes_of "\",\"genre\":\""
                    ++ (genre
                        ++ (bytes_of "\",\"publisher\":\""
                            ++ (publisher
                                ++ (bytes_of "\",\"page_count\":"
                                    ++ (decimal page_count ++ bytes_of "}")))))))))

-- `len` of the request, from the texts as they were typed.
unfoldable pub announced : (title author genre publisher page_count : List ℕ) → ℕ
announced title author genre publisher page_count =
    21 + 45 + length title + length author + length genre + length publisher + length page_count

unfoldable pub add_message :
    (atoi : List ℕ → ℤ) (title author genre publisher page_count jwt cookie : List ℕ) → List ℕ
add_message atoi title author genre publisher page_count jwt cookie =
    (bytes_of "POST /api/v1/tema/library/books"
      ++ (host
          ++ (bytes_of "Content-Type: application/json\r\n"
              ++ (session_headers jwt cookie
                  ++ (bytes_of "Content-Length: "
                      ++ (decimal (pos (announced title author genre publisher page_count))
                          ++ (crlf ++ crlf)))))))
    ++ (book_body title author genre publisher (atoi page_count) ++ crlf)
