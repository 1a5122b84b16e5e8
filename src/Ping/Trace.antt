-- ===== src/Ping/Trace.antt =====
-- The loop of `traceroute` ends with the first answer that is no "time exceeded".
use pcom.Prelude.{
  ℤ, pos, ℕ, zero, suc, ◌+◌, ◌%◌, ◌≤◌, ◌<◌, List, [], ◌∷◌, ◌++◌, append_assoc, some, true, false,
  ◌==◌, ◌≡◌, refl, ap, arith, length,
}
use pcom.Bytes.{patch}
use pcom.Router.{ip_saddr, icmp_type}
use pcom.Ping.{hop_of, Host, relevant_packet, time_packet, echo_request, trace_on, traceroute}

-- What arrives behind the reply in the buffer: any frames that are no answers, then an answer, which
-- leaves the buffer as `reply`.
pub data Arrives (host : Host)
    : (before : List ℕ) → (frames : List (List ℕ)) → (reply : List ℕ) → Type 0 where
  answer :
      {before frame : List ℕ}
      → relevant_packet host (patch before 0 frame) ≡ true
      → Arrives host before (frame ∷ []) (patch before 0 frame)
  other :
      {before frame reply : List ℕ} {frames : List (List ℕ)}
      → relevant_packet host (patch before 0 frame) ≡ false
      → Arrives host (patch before 0 frame) frames reply
      → Arrives host before (frame ∷ frames) reply

time_packet-Arrives :
    (host : Host) {before reply : List ℕ} {frames : List (List ℕ)} (more : List (List ℕ))
    → Arrives host before frames reply
    → time_packet host before (frames ++ more) ≡ some (reply, more)
unfolding time_packet
time_packet-Arrives host more (answer r) = rw r refl
time_packet-Arrives host more (other r a) = rw r (time_packet-Arrives host more a)

-- The hops from `ttl` on, what arrives for them, and the lines that are shown: every answer but the
-- last says "time exceeded".
pub data Hops (host : Host)
    : (ttl : ℕ)
      → (before : List ℕ) → (frames : List (List ℕ)) → (shown : List (ℤ × ℕ)) → Type 0 where
  target :
      {ttl : ℕ} {before reply : List ℕ} {frames : List (List ℕ)}
      → Arrives host before frames reply
      → (icmp_type reply == 11) ≡ false
      → Hops host ttl before frames ((pos ttl, ip_saddr reply) ∷ [])
  hop :
      {ttl : ℕ} {before reply : List ℕ} {frames later : List (List ℕ)} {shown : List (ℤ × ℕ)}
      → Arrives host before frames reply
      → (icmp_type reply == 11) ≡ true
      → Hops host (ttl + 1) reply later shown
      → Hops host ttl before (frames ++ later) ((pos ttl, ip_saddr reply) ∷ shown)

Hops-positive :
    (host : Host) {ttl : ℕ} {before : List ℕ} {frames : List (List ℕ)} {shown : List (ℤ × ℕ)}
    → Hops host ttl before frames shown
    → 0 < length shown
Hops-positive host (target a t) = omega arith
Hops-positive host (hop a t h) = omega arith

hop_of-small : (ttl : ℕ) → ttl < 255 → hop_of ttl ≡ pos ttl
unfolding hop_of
hop_of-small ttl h = let e : (ttl + 1) % 256 ≡ ttl + 1 = omega arith in rw e (ground arith)

-- Where the answers of the hops from `ttl` on are "time exceeded" until the last one is something
-- else, and the last hop's number is below 255, the loop ends, whatever arrives later, and has
-- shown every hop with the address of its answer, in order.
pub traceroute-Hops :
    (host : Host) (daddr rounds : ℕ) {ttl : ℕ} {before : List ℕ} {frames : List (List ℕ)}
    {shown : List (ℤ × ℕ)} (packet : List ℕ) (more : List (List ℕ))
    → Hops host ttl before frames shown
    → ttl + length shown ≤ 255
    → length shown ≤ rounds
    → ((traceroute rounds host daddr ttl packet before (frames ++ more)).shown ≡ shown)
      × ((traceroute rounds host daddr ttl packet before (frames ++ more)).ended ≡ true)
unfolding traceroute trace_on
traceroute-Hops host daddr zero packet more h fits enough =
    absurd (omega (arith, Hops-positive host h))
traceroute-Hops host daddr (suc rounds) packet more (target {ttl = ttl} a t) fits enough =
    rw (time_packet-Arrives host more a, t, hop_of-small ttl (omega arith)) (refl, refl)
traceroute-Hops host daddr (suc rounds) packet more
      (hop {ttl = ttl} {reply = reply} {frames = frames} {later = later} a t h) fits enough =
    let step : (ttl + 1) % 256 ≡ ttl + 1 = omega (arith, Hops-positive host h) in
    let rest =
      traceroute-Hops host daddr rounds (echo_request host daddr ttl packet) more h (omega arith)
        (omega arith) in
    let small = hop_of-small ttl (omega (arith, Hops-positive host h)) in
    rw (append_assoc frames later more, time_packet-Arrives host (later ++ more) a, t, small, step)
      (ap (λ lines. (pos ttl, ip_saddr reply) ∷ lines) rest.0, rest.1)
