-- ===== src/Client/Run.antt =====
-- Whole sessions of the library client.
use pcom.Prelude.{ℕ, zero, suc, ◌<◌, ◌≡◌, List, [], ◌∷◌, ◌&&◌, ℤ, length, All, All-append}
use pcom.Client.{Session, Round, next, leave, undefined, Notice}
use pcom.Client.Loop.{word_of, read_command, perform, glue, follow, run_client}
use pcom.Client.Access.{IsSession, IsSafe, perform-IsSafe}

-- What `IsSafe` says of a round, but for the number of requests.
abbrev IsSafeRun : Round → Type 0
IsSafeRun (next s sent notices) = IsSession s × All (λ message. length message < 500) sent
IsSafeRun leave = Unit
IsSafeRun undefined = Unit

glue-IsSafeRun :
    (sent : List (List ℕ)) (notices : List Notice) (rest : Round)
    → All (λ message. length message < 500) sent
    → IsSafeRun rest
    → IsSafeRun (glue sent notices rest)
unfolding glue
glue-IsSafeRun sent notices (next s sent' notices') h (v, h') =
    (v, All-append (λ message. length message < 500) sent sent' h h')
glue-IsSafeRun sent notices leave h w = tt
glue-IsSafeRun sent notices undefined h w = tt

follow-IsSafeRun :
    (round : Round) (rest : Session → Round)
    → IsSafe round
    → ((s : Session) → IsSession s → IsSafeRun (rest s))
    → IsSafeRun (follow round rest)
unfolding follow
follow-IsSafeRun (next s sent notices) rest (v, h, n) w =
    glue-IsSafeRun sent notices (rest s) h (w s v)
follow-IsSafeRun leave rest h w = tt
follow-IsSafeRun undefined rest h w = tt

-- A run that is defined leaves a session in which access implies a log-in.
run_client-IsSafeRun :
    (atoi : List ℕ → ℤ) (server : List ℕ → List ℕ) (fuel : ℕ) (s : Session) (lines : List (List ℕ))
    → IsSession s
    → IsSafeRun (run_client atoi server fuel s lines)
unfolding run_client
run_client-IsSafeRun atoi server zero s lines v = (v, tt)
run_client-IsSafeRun atoi server (suc fuel) s [] v = (v, tt)
run_client-IsSafeRun atoi server (suc fuel) s (input ∷ lines) v =
    let (command, rest) = read_command (s.logged_in && s.jwt_access) (word_of input) lines in
    follow-IsSafeRun (perform atoi server s command) _ (perform-IsSafe server s v atoi command)
      λ s' w. run_client-IsSafeRun atoi server fuel s' rest w

-- Through any run that is defined to its end, whatever is typed and whatever the server answers, access
-- to the library is held only after a log-in.
pub run_client-IsSession :
    (atoi : List ℕ → ℤ) (server : List ℕ → List ℕ) (fuel : ℕ) (s : Session) (lines : List (List ℕ))
    → IsSession s
    → {s' : Session} {sent : List (List ℕ)} {notices : List Notice}
    → run_client atoi server fuel s lines ≡ next s' sent notices
    → IsSession s'
run_client-IsSession atoi server fuel s lines v e =
    (rw e at (run_client-IsSafeRun atoi server fuel s lines v)).0
