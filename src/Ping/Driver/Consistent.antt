-- ===== src/Ping/Driver/Consistent.antt =====
-- What the fields of a probe's result say of each other.
use weronity_vpn.Prelude.{
  ℕ, ◌≡◌, refl, Bool, true, false, Option, none, some, List, [], ◌∷◌, arith, Bool-cases, inl, inr,
  ◌&&◌, if◌then◌else◌,
}
use weronity_vpn.Prelude.Result.{Result, ok, err, ◌>>=◌, >>=-eq-ok, ok_inj}
use weronity_vpn.Ping.{Bytes, PingTarget, PingResult, on_events, probe_one}
use weronity_vpn.Ping.Driver.{
  Network, Call, failed, raises, opened, Round, cannot_send, sent, quic_rounds, quic_probe, probe,
  tcp_connect, tls_connect, psk_of,
}

abbrev pub is_some {ℓ} : {A : Type ℓ} → Option A → Bool
is_some none = false
is_some (some a) = true

-- A verdict comes with a time if and only if it is good.
abbrev IsTimed : Bool × Option ℕ → Type 0
IsTimed (good, rtt) = good ≡ is_some rtt

quic_rounds-IsTimed :
    (digest : Bytes → Bytes) (psk : Option Bytes) (answered : Option Bool) (rounds : List Round)
    → IsTimed (quic_rounds digest psk answered rounds)
unfolding quic_rounds
quic_rounds-IsTimed digest psk answered [] = refl
quic_rounds-IsTimed digest psk answered (cannot_send ∷ rounds) = refl
quic_rounds-IsTimed digest psk answered (sent events rtt ∷ rounds) =
    go (on_events digest psk answered events) refl
      (quic_rounds-IsTimed digest psk (on_events digest psk answered events) rounds)
  where
    go :
        (now : Option Bool)
        → on_events digest psk answered events ≡ now
        → IsTimed (quic_rounds digest psk (on_events digest psk answered events) rounds)
        → IsTimed (quic_rounds digest psk answered (sent events rtt ∷ rounds))
    go none e h = rw (quic_rounds, e) h
    go (some true) e h = rw (quic_rounds, e) refl
    go (some false) e h = rw (quic_rounds, e) refl

-- The same of a call, if it ends with a verdict.
abbrev EndsTimed : Result (Bool × Option ℕ) → Type 0
EndsTimed call = (verdict : Bool × Option ℕ) → call ≡ ok verdict → IsTimed verdict

quic_probe-EndsTimed : (net : Network) (t : PingTarget) → EndsTimed (quic_probe net t)
unfolding quic_probe
quic_probe-EndsTimed net t verdict h = go (net.quic t) refl
  where
    go : (found : Call (Round × Round)) → net.quic t ≡ found → IsTimed verdict
    go failed e = rw (← ok_inj (rw (quic_probe, e) at h)) refl
    go (raises fault) e = absurd (let bad : err fault ≡ ok verdict = rw (quic_probe, e) at h in cc)
    go (opened (first, second)) e = rw (← ok_inj (rw (quic_probe, e) at h)) (
        quic_rounds-IsTimed net.digest (psk_of net.encode t.obfs_password) none
          (first ∷ second ∷ []))

tcp_connect-EndsTimed : (found : Call ℕ) → EndsTimed (tcp_connect found)
tcp_connect-EndsTimed failed verdict h = rw (← ok_inj h) refl
tcp_connect-EndsTimed (raises fault) verdict h = cc
tcp_connect-EndsTimed (opened rtt) verdict h = rw (← ok_inj h) refl

-- What the two claims are of one result.
abbrev pub IsConsistent : PingTarget → PingResult → Type 0
IsConsistent t r =
    (r.tcp_ok ≡ is_some r.ping_ms)
    × (r.tls_ok ≡ true → (r.tcp_ok ≡ true) × (t.want_tls ≡ true) × (t.udp ≡ false))

over_tcp-IsConsistent :
    (t : PingTarget) (reached : Bool) (rtt : Option ℕ) (tls : Result Bool) (r : PingResult)
    → t.udp ≡ false
    → reached ≡ is_some rtt
    → ((if reached && t.want_tls then tls else ok false) >>= λ (b : Bool).
        ok (record { tcp_ok = reached; tls_ok = b; ping_ms = rtt }))
      ≡ ok r
    → IsConsistent t r
over_tcp-IsConsistent t reached rtt tls r tcp timed h = elim (Bool-cases (reached && t.want_tls)) [
  | inl wanted ↦
      let (b, _, made) = >>=-eq-ok tls _ (rw wanted at h) in
      rw (← ok_inj made) (timed, λ _. ground arith)
  | inr plain ↦ rw (← ok_inj (rw plain at h)) (timed, λ opened. cc)
]

probe_one-IsConsistent :
    (t : PingTarget) (quic tcp : Result (Bool × Option ℕ)) (tls : Result Bool) (r : PingResult)
    → EndsTimed quic
    → EndsTimed tcp
    → probe_one t quic tcp tls ≡ ok r
    → IsConsistent t r
unfolding probe_one
probe_one-IsConsistent t quic tcp tls r hq hc h = elim (Bool-cases t.udp) [
  | inl over_udp ↦
      let (v, ran, made) = >>=-eq-ok quic _ (rw over_udp at h) in
      rw (← ok_inj made) (hq v ran, λ opened. cc)
  | inr over_tcp ↦
      let (v, ran, made) = >>=-eq-ok tcp _ (rw over_tcp at h) in
      over_tcp-IsConsistent t v.0 v.1 tls r over_tcp (hc v ran) made
]

-- A result that a probe ends with has a ping exactly when the server was reached, and TLS was opened
-- only over TCP to a server that was reached and for which TLS was wanted.
pub probe_consistent :
    (net : Network) (t : PingTarget) (r : PingResult)
    → probe net t ≡ ok r
    → (r.tcp_ok ≡ is_some r.ping_ms)
      × (r.tls_ok ≡ true → (r.tcp_ok ≡ true) × (t.want_tls ≡ true) × (t.udp ≡ false))
unfolding probe
probe_consistent net t r h =
    probe_one-IsConsistent t (quic_probe net t) (tcp_connect (net.tcp t)) (tls_connect (net.tls t))
      r (quic_probe-EndsTimed net t) (tcp_connect-EndsTimed (net.tcp t)) h
