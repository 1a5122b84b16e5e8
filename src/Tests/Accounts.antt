-- ===== src/Tests/Accounts.antt =====
-- The theorems of the account server and its client at concrete inputs.
use pcom.Prelude.{ℕ, List, [], ◌∷◌, ◌++◌, ◌≡◌, refl, arith, some, true, pos, negsuc, if◌then◌else◌}
use pcom.Text.{bytes_of, starts_with, strip_newline}
use pcom.Scan.{same_text, scan_word, scan_int}
use pcom.Assoc.{find}
use pcom.Accounts.{User, Users, next, fit, scan_id, sum_or_zero, get_user, serve, run}
use pcom.Accounts.Balance.{Holds, AllPaid, all_ask_fairly, run-AllPaid}
use pcom.Accounts.Requests.{
  IsId, exit_text, connect_text, put, run_reconnect, serve_credit, get_user_outcome,
}
use pcom.Accounts.Client.{Step, sends, obey, IsTransfer, obey-send_to, serve-show_sum}

abbrev ana : List ℕ
ana = bytes_of "ana"

abbrev user : User
user = record { money = pos 50; is_connected = true }

abbrev users : Users
users = (ana, user) ∷ []

abbrev requests : List (List ℕ)
requests = bytes_of "CONNECT ana" ∷ bytes_of "send_to ana 50" ∷ bytes_of "get 20 ana" ∷ []

requests_fair : all_ask_fairly requests ≡ true
unfolding all_ask_fairly pcom.Accounts.Balance.asks_fairly pcom.Accounts.Balance.asks_fairly_from
    starts_with scan_id sum_or_zero pcom.Accounts.scan_id_from pcom.Accounts.after_junk fit
    scan_word scan_int pcom.Scan.skip_spaces pcom.Scan.split_word pcom.Scan.word_or_end
    pcom.Scan.is_space pcom.Scan.scan_signed pcom.Scan.signed pcom.Scan.scan_unsigned
    pcom.Scan.scan_digits
requests_fair = refl

run-AllPaid_example : Holds AllPaid (run [] requests)
run-AllPaid_example = run-AllPaid requests requests_fair

ana-IsId : IsId ana
unfolding pcom.Accounts.Requests.no_spaces pcom.Scan.is_space
ana-IsId = record { solid = refl; some_text = omega arith; short = omega arith }

ana_found : find same_text users ana ≡ some user
unfolding find same_text
ana_found = refl

run_reconnect_example :
    (users' : Users) × (run users (exit_text ana ∷ connect_text ana ∷ connect_text ana ∷ [])
      ≡ next users' (bytes_of ";USER_EXISTS;\n" ∷ []))
    × ((other : List ℕ)
        → find same_text users' other
          ≡ (if same_text ana other then some user else find same_text users other))
run_reconnect_example = run_reconnect users ana ana-IsId ana_found

to_ana : scan_id (bytes_of "send_to" ++ bytes_of " ana -70") ≡ some (ana, bytes_of " -70")
unfolding scan_id pcom.Accounts.scan_id_from pcom.Accounts.after_junk fit scan_word
    pcom.Scan.skip_spaces pcom.Scan.split_word pcom.Scan.word_or_end pcom.Scan.is_space
to_ana = refl

minus_70 : sum_or_zero (scan_int (bytes_of " -70")) ≡ negsuc 69
unfolding sum_or_zero scan_int pcom.Scan.skip_spaces pcom.Scan.is_space pcom.Scan.scan_signed
    pcom.Scan.signed pcom.Scan.scan_unsigned pcom.Scan.scan_digits
minus_70 = refl

abbrev line : List ℕ
line = bytes_of "send_to dan 5\n"

line_command : starts_with (bytes_of "send_to") (strip_newline line) ≡ true
unfolding starts_with strip_newline
line_command = refl

line_sent : obey ana line ≡ sends (bytes_of "send_to dan 5")
unfolding obey starts_with strip_newline pcom.Accounts.Client.send_to pcom.Accounts.Client.send_sum
    same_text pcom.Accounts.Client.is_zero scan_id pcom.Accounts.scan_id_from
    pcom.Accounts.after_junk fit scan_word sum_or_zero scan_int pcom.Scan.skip_spaces
    pcom.Scan.split_word pcom.Scan.word_or_end pcom.Scan.is_space pcom.Scan.scan_signed
    pcom.Scan.signed pcom.Scan.scan_unsigned pcom.Scan.scan_digits
line_sent = refl
