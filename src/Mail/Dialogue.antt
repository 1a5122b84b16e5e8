-- ===== src/Mail/Dialogue.antt =====
-- The order of the dialogue of Lab11/send_mail.c.
use mathlib.Core.Path.{ap₂}
use pcom.Prelude.{
  ℕ, ◌-◌, List, [], ◌∷◌, ◌++◌, ◌≡◌, ◌≢◌, refl, sym, ap, ◌∙◌, arith, true, false, if◌then◌else◌,
  take, Bool-cases, inl, inr, ==→eq,
}
use pcom.Text.{starts_with}
use pcom.Mail.{
  Read, Line, line, closed, failed, blocked, read_line, max_len, accepted, refused, undefined,
  waiting, check_answer, send_command, Command, End, finished, rejected, crashed, pending,
  send_commands,
}

-- A command on the wire.
abbrev pub wire : Command → List ℕ
wire c = c.sendbuf ++ (13 ∷ 10 ∷ [])

-- What the program has read as the answer: a line, or nothing where the server has closed; and the
-- reads that are left.
pub data Replied (reads : List Read) : (text : List ℕ) → List Read → Type 0 where
  a_line :
      (text : List ℕ) (n : ℕ) (reads' : List Read)
      → read_line (max_len - 1) reads ≡ line text n reads'
      → Replied reads (take n text) reads'
  no_line :
      (reads' : List Read) → read_line (max_len - 1) reads ≡ closed reads' → Replied reads [] reads'

-- Commands sent in order, each but the last answered by a text that starts as the command expects before
-- the next was sent. The last command has been answered so too, or with another text, or its answer was
-- not read, or has not come.
pub data Sent : List Command → List Read → List (List ℕ) → End → Type 0 where
  all_sent : {reads : List Read} → Sent [] reads [] finished
  go_on :
      (c : Command) {commands : List Command} {reads reads' : List Read} {sent : List (List ℕ)}
      {end : End} {text : List ℕ} (more : List ℕ)
      → Replied reads text reads'
      → text ≡ c.expected ++ more
      → Sent commands reads' sent end
      → Sent (c ∷ commands) reads (wire c ∷ sent) end
  stop_refused :
      (c : Command) {commands : List Command} {reads reads' : List Read} {text : List ℕ}
      → Replied reads text reads'
      → ((more : List ℕ) → text ≢ c.expected ++ more)
      → Sent (c ∷ commands) reads (wire c ∷ []) rejected
  stop_crashed :
      (c : Command) {commands : List Command} {reads : List Read}
      → read_line (max_len - 1) reads ≡ failed
      → Sent (c ∷ commands) reads (wire c ∷ []) crashed
  stop_pending :
      (c : Command) {commands : List Command} {reads : List Read}
      → read_line (max_len - 1) reads ≡ blocked
      → Sent (c ∷ commands) reads (wire c ∷ []) pending

starts_with_rest :
    (pattern text : List ℕ)
    → starts_with pattern text ≡ true
    → (more : List ℕ) × (text ≡ pattern ++ more)
unfolding starts_with
starts_with_rest [] text h = (text, refl)
starts_with_rest (c ∷ pattern) [] h = absurd (ground arith)
starts_with_rest (c ∷ pattern) (d ∷ text) h =
    let (more, e) = starts_with_rest pattern text (ground arith) in
    (more, ap₂ ◌∷◌ (sym (==→eq c d (ground arith))) e)

starts_with_append : (pattern more : List ℕ) → starts_with pattern (pattern ++ more) ≡ true
unfolding starts_with
starts_with_append [] more = refl
starts_with_append (c ∷ pattern) more = ground (arith, starts_with_append pattern more)

starts_with_none :
    (pattern text : List ℕ)
    → starts_with pattern text ≡ false
    → (more : List ℕ) → text ≢ pattern ++ more
starts_with_none pattern text f more e =
    let p : true ≡ false =
      sym (starts_with_append pattern more) ∙ ap (starts_with pattern) (sym e) ∙ f in
    absurd (ground arith)

-- Each command is sent only after all before it were answered by a text that starts as they expect; the
-- first answer that does not, or that cannot be read, ends the dialogue: nothing more is sent.
pub send_commands-Sent :
    (commands : List Command) (reads : List Read)
    → Sent commands reads ((send_commands commands reads).0) ((send_commands commands reads).1)
unfolding send_commands
send_commands-Sent [] reads = all_sent
send_commands-Sent (c ∷ commands) reads =
    came (read_line (max_len - 1) reads) refl (send_commands-Sent commands)
  where
    Goal : Type 0
    Goal =
        Sent (c ∷ commands) reads ((send_commands (c ∷ commands) reads).0)
          ((send_commands (c ∷ commands) reads).1)

    Later : Type 0
    Later =
        (reads' : List Read)
        → Sent commands reads' ((send_commands commands reads').0)
            ((send_commands commands reads').1)

    tested :
        (text : List ℕ) (reads' : List Read)
        → Replied reads text reads'
        → send_command c.expected reads
          ≡ (if starts_with c.expected text then accepted reads' else refused)
        → Later
        → Goal
    tested text reads' r e later = elim (Bool-cases (starts_with c.expected text)) [
      | inl t ↦
          (let (more, is) = starts_with_rest c.expected text t in
            rw (send_commands, e, t) (go_on c more r is (later reads')))
      | inr f ↦ (rw (send_commands, e, f) (stop_refused c r (starts_with_none c.expected text f)))
    ]

    came : (l : Line) → read_line (max_len - 1) reads ≡ l → Later → Goal
    came (line text n reads') e later =
        tested (take n text) reads' (a_line text n reads' e)
          (unfold send_command check_answer in rw e refl) later
    came (closed reads') e later =
        tested [] reads' (no_line reads' e) (unfold send_command check_answer in rw e refl) later
    came failed e later =
        let stop : send_command c.expected reads ≡ undefined =
          unfold send_command check_answer in rw e refl in
        rw (send_commands, stop) (stop_crashed c e)
    came blocked e later =
        let stop : send_command c.expected reads ≡ waiting =
          unfold send_command check_answer in rw e refl in
        rw (send_commands, stop) (stop_pending c e)
