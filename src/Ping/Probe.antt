-- ===== src/Ping/Probe.antt =====
-- The verdict of a QUIC probe is that of the first event that decides it.
use weronity_vpn.Prelude.{
  ℕ, ◌≡◌, refl, Bool, true, false, Option, none, some, List, [], ◌∷◌, ◌++◌, arith, first_where,
  Bool-cases, inl, inr,
}
use weronity_vpn.Ping.{
  Bytes, Event, datagram, failure, clear, is_version_negotiation, on_event, on_events, PingTarget,
}
use weronity_vpn.Prelude.Result.{ok, err, ok_inj}
use weronity_vpn.Ping.Driver.{
  Round, cannot_send, sent, quic_rounds, Network, quic_probe, psk_of, Call, failed, raises, opened,
}

abbrev pub success : Option Event → Bool
success none = false
success (some failure) = false
success (some (datagram _)) = true

-- What a probe is told in its rounds; a packet that cannot be sent counts as a failure.
abbrev pub all_events : List Round → List Event
all_events [] = []
all_events (cannot_send ∷ rounds) = failure ∷ all_events rounds
all_events (sent events _ ∷ rounds) = events ++ all_events rounds

abbrev pub has_time : Option ℕ → Bool
has_time none = false
has_time (some _) = true

module _ (digest : Bytes → Bytes) (psk : Option Bytes) where
  -- An error, or a datagram that is a version negotiation once it is read.
  abbrev pub decides : Event → Bool
  decides (datagram bytes) = is_version_negotiation (clear digest psk bytes)
  decides failure = true

  abbrev answer : Option Event → Option Bool
  answer none = none
  answer (some failure) = some false
  answer (some (datagram _)) = some true

  on_events_answered : (b : Bool) (es : List Event) → on_events digest psk (some b) es ≡ some b
  unfolding on_events
  on_events_answered b [] = refl
  on_events_answered b (e ∷ es) = on_events_answered b es

  on_events_lem : (es : List Event) → on_events digest psk none es ≡ answer (first_where decides es)
  unfolding on_events on_event first_where
  on_events_lem [] = refl
  on_events_lem (failure ∷ es) = on_events_answered false es
  on_events_lem (datagram bytes ∷ es) =
      elim (Bool-cases (is_version_negotiation (clear digest psk bytes))) [
        | inl yes_it_is ↦ rw yes_it_is (on_events_answered true es)
        | inr other ↦ rw other (on_events_lem es)
      ]

  abbrev or_event : Option Event → Option Event → Option Event
  or_event none later = later
  or_event (some e) later = some e

  first_where-append :
      (xs ys : List Event)
      → first_where decides (xs ++ ys) ≡ or_event (first_where decides xs) (first_where decides ys)
  unfolding first_where
  first_where-append [] ys = refl
  first_where-append (x ∷ xs) ys = ground (arith, first_where-append xs ys)

  quic_rounds_lem :
      (rounds : List Round)
      → ((quic_rounds digest psk none rounds).0 ≡ success (first_where decides (all_events rounds)))
        × (has_time (quic_rounds digest psk none rounds).1
            ≡ success (first_where decides (all_events rounds)))
  unfolding quic_rounds first_where
  quic_rounds_lem [] = (refl, refl)
  quic_rounds_lem (cannot_send ∷ rounds) = (refl, refl)
  quic_rounds_lem (sent events rtt ∷ rounds) = ground (
    arith,
    on_events_lem events,
    first_where-append events (all_events rounds),
    quic_rounds_lem rounds,
  )

-- Everything that a probe is told: no more than a failure if its endpoint cannot be made.
abbrev pub heard : Network → PingTarget → List Event
heard net t = elim (net.quic t) [
  | failed ↦ failure ∷ []
  | raises _ ↦ []
  | opened (first, second) ↦ all_events (first ∷ second ∷ [])
]

-- The first event of a probe that decides.
abbrev pub decision : Network → PingTarget → Option Event
decision net t = first_where (decides net.digest (psk_of net.encode t.obfs_password)) (heard net t)

-- A QUIC probe that raises nothing succeeds exactly if the first event that decides, over both rounds,
-- is a version negotiation, and it has a round trip time exactly if it succeeds. A failure to make the
-- endpoint or to send a packet decides as an error does.
pub quic_probe_lem :
    (net : Network) (t : PingTarget) (verdict : Bool × Option ℕ)
    → quic_probe net t ≡ ok verdict
    → (verdict.0 ≡ success (decision net t)) × (has_time verdict.1 ≡ success (decision net t))
unfolding quic_probe first_where
quic_probe_lem net t verdict h = go (net.quic t) refl
  where
    go :
        (found : Call (Round × Round))
        → net.quic t ≡ found
        → (verdict.0 ≡ success (decision net t)) × (has_time verdict.1 ≡ success (decision net t))
    go failed e = rw (heard, e, ← ok_inj (rw (quic_probe, e) at h)) (refl, refl)
    go (raises fault) e = absurd (let bad : err fault ≡ ok verdict = rw (quic_probe, e) at h in cc)
    go (opened (first, second)) e =
        rw (heard, e, ← ok_inj (rw (quic_probe, e) at h))
          (quic_rounds_lem net.digest (psk_of net.encode t.obfs_password) (first ∷ second ∷ []))
