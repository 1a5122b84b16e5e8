-- ===== src/Router/Run.antt =====
-- Whole runs of the loop in Teme/Tema1/router.c.
use pcom.Prelude.{
  ℕ, zero, suc, ◌+◌, ◌≤◌, ◌<◌, ◌⊎◌, ◌≢◌, inl, inr, List, [], ◌∷◌, ◌++◌, ◌≡◌, refl, arith, length,
  dec_lt,
}
use pcom.Bytes.{load8, load16, patch, length-patch, load8-patch_reach}
use pcom.Checksum.{htons}
use pcom.Frames.{Packet, Frame, ethertype_arp}
use pcom.Router.{Config, State, Turn, next, boot, receive, serve, run}
use pcom.Router.Safety.{IsSound, IsNoReply, serve-Continues}

-- Frames none of which is an ARP reply when the router looks at it: each is put over what the array
-- held, and what the array holds depends on the rounds before.
pub data NoReplies (cfg : Config) : (st : State) → (arrivals : List (ℕ × List ℕ)) → Type 0 where
  no_more : {st : State} → NoReplies cfg st []
  one_more :
      {st : State} {interface : ℕ} {bytes : List ℕ} {arrivals : List (ℕ × List ℕ)}
      → IsNoReply cfg (receive st interface bytes)
      → ((st' : State) (frames : List Frame)
          → serve cfg (receive st interface bytes) ≡ next st' frames
          → NoReplies cfg st' arrivals)
      → NoReplies cfg st ((interface, bytes) ∷ arrivals)

load8-outside : (p : List ℕ) (i : ℕ) → length p ≤ i → load8 p i ≡ 0
load8-outside [] i h = refl
load8-outside (x ∷ p) zero h = absurd (omega arith)
load8-outside (x ∷ p) (suc i) h = load8-outside p i (omega arith)

load8-patch_start :
    (p bytes : List ℕ) (i : ℕ)
    → i < length bytes
    → (load8 (patch p 0 bytes) i ≡ load8 bytes i) ⊎ (load8 (patch p 0 bytes) i ≡ 0)
load8-patch_start p bytes i l = elim (dec_lt i (length p)) [
  | yes a ↦
      inl
        (let e : 0 + i ≡ i = omega arith in rw e at (load8-patch_reach p 0 bytes i (omega arith) l))
  | no b ↦ inr (load8-outside (patch p 0 bytes) i (omega (arith, length-patch p 0 bytes)))
]

not_arp :
    (p bytes : List ℕ)
    → 13 < length bytes
    → load8 bytes 12 < 256
    → load8 bytes 13 ≡ 0
    → load16 (patch p 0 bytes) 12 ≢ htons ethertype_arp
unfolding htons
not_arp p bytes l b z e =
    omega (arith, load8-patch_start p bytes 12 (omega arith), load8-patch_start p bytes 13 l)

-- A frame that is long enough to say that it is not ARP is none, whatever the array held.
pub IsNoReply-receive :
    (cfg : Config) (st : State) (interface : ℕ) (bytes : List ℕ)
    → 13 < length bytes
    → load8 bytes 12 < 256
    → load8 bytes 13 ≡ 0
    → IsNoReply cfg (receive st interface bytes)
unfolding receive
IsNoReply-receive cfg st interface bytes l b z = inl (not_arp st.m.payload bytes l b z)

-- From a queue of packets with routes, frames that are not ARP replies when the router looks at them,
-- ARP requests and all others, are all handled: the run does not reach undefined behaviour and leaves
-- such a queue.
pub run-IsSound :
    (cfg : Config) (st : State) (arrivals : List (ℕ × List ℕ))
    → IsSound cfg st
    → NoReplies cfg st arrivals
    → (st' : State) × (frames : List Frame) × (run cfg st arrivals ≡ next st' frames)
      × IsSound cfg st'
unfolding run receive
run-IsSound cfg st [] s no_more = (st, [], refl, s)
run-IsSound cfg st ((interface, bytes) ∷ arrivals) s (one_more h hs) =
    let c =
      serve-Continues cfg (receive st interface bytes)
        (record { waiting = s.waiting; owns = s.owns; routed = s.routed }) h in
    let (st', frames, e, s') =
      run-IsSound cfg c.state arrivals c.sound (hs c.state c.frames c.turn) in
    (st', c.frames ++ frames, ground (arith, c.turn, e), s')

-- The queue is empty at the start.
pub boot-IsSound : (cfg : Config) (m : Packet) → IsSound cfg (boot m)
unfolding boot pcom.Router.Release.all_owned
boot-IsSound cfg m = record { waiting = []; owns = refl; routed = tt }
