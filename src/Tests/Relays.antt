-- ===== src/Tests/Relays.antt =====
-- Two clients that write to each other, and a message for a number that nobody has.
use pcom.Prelude.{List, [], ◌∷◌, ◌++◌, ◌≡◌, refl, arith, false}
use pcom.Text.{bytes_of}
use pcom.Scan.{c_text}
use pcom.Relay.{Event, connection, received, Sent, next, died, is_open, fd_clr, run}
use pcom.Relay.Letters.{Spoken, silence, joins, leaves, writes, babbles, run-Spoken, run_dies}

abbrev talk : List Event
talk =
    connection 4
    ∷ connection 5
    ∷ received 4 (53 ∷ 32 ∷ bytes_of "hi")
    ∷ received 5 (bytes_of "x")
    ∷ received 4 []
    ∷ []

abbrev letters : List Sent
letters = record { client_no = 5; text = c_text (bytes_of "hi") } ∷ []

talk-Spoken : Spoken [] talk letters (fd_clr 4 (4 ∷ 5 ∷ []))
unfolding is_open
talk-Spoken =
    joins (joins (writes (omega arith) (omega arith) refl (babbles refl (leaves silence))))

four_closed : is_open (fd_clr 4 (4 ∷ 5 ∷ [])) 4 ≡ false
unfolding is_open fd_clr
four_closed = refl

run-Spoken_example : run [] talk ≡ next (fd_clr 4 (4 ∷ 5 ∷ [])) letters
run-Spoken_example = run-Spoken talk-Spoken

run_dies_example :
    run [] (talk ++ (received 5 (52 ∷ bytes_of " hi") ∷ connection 6 ∷ [])) ≡ died letters
run_dies_example =
    run_dies talk-Spoken 5 4 (bytes_of " hi") (connection 6 ∷ []) (omega arith) (omega arith)
      four_closed
