-- ===== src/Tests/Pings.antt =====
-- Examples for the driver of the reachability checks.
use weronity_vpn.Prelude.{
  ◌*◌, ◌≤◌, ◌≡◌, refl, ◌⊎◌, String, true, false, none, some, List, [], ◌∷◌, ◌==◌, arith, length,
  if◌then◌else◌,
}
use weronity_vpn.Prelude.Int.{pos}
use weronity_vpn.Prelude.Result.{Result, ok, err, value_error}
use weronity_vpn.Ping.{PingTarget, PingResult, datagram, failure}
use weronity_vpn.Ping.Driver.{
  Network, failed, raises, opened, sent, quic_probe, probe, waiting, finished, here, there, System,
  Step, acquire, release, start, Steps, stay, after, results, ping_many,
}
use weronity_vpn.Ping.Driver.Interleave.{active, ping_many_order}
use weronity_vpn.Ping.Driver.Progress.{ping_many_ends}
use weronity_vpn.Ping.Driver.Consistent.{is_some, probe_consistent}
use weronity_vpn.Ping.Probe.{quic_probe_lem, decision, success, has_time}

-- One host answers over TCP, and nothing over UDP.
abbrev pub network : Network
network = record {
  digest = λ bytes. [];
  encode = λ s. [];
  tcp = λ t. if t.host == "a.example" then opened 40 else failed;
  tls = λ t. opened tt;
  quic = λ t. failed;
}

abbrev target : String → PingTarget
target host = record {
  host = host;
  port = pos 443;
  sni = none;
  want_tls = true;
  udp = false;
  obfs_password = none;
}

abbrev targets : List PingTarget
targets = target "a.example" ∷ target "b.example" ∷ []

-- The state after the second target is probed before the first, one at a time.
abbrev one_done : System
one_done = record {
  permits = 1;
  slots =
      (target "a.example", waiting)
      ∷ (target "b.example", finished (probe network (target "b.example")))
      ∷ [];
}

second_first : Steps network 2 (start 1 targets) one_done
second_first = after (after stay (acquire (there here))) (release (there here))

ping_many_order_example :
    (active one_done.slots ≤ 1)
    × ((rs : Result (List PingResult))
        → results one_done.slots ≡ some rs
        → rs ≡ ping_many network targets)
ping_many_order_example = ping_many_order network 1 targets second_first

ping_many_ends_example :
    (2 ≤ 2 * length targets)
    × (((2 ≡ 2 * length targets) × (results one_done.slots ≡ some (ping_many network targets)))
        ⊎ ((t : System) × Step network one_done t))
ping_many_ends_example = ping_many_ends network 1 targets (omega arith) second_first

abbrev probed : PingResult
probed = record { tcp_ok = true; tls_ok = true; ping_ms = some 40 }

probe_done : probe network (target "a.example") ≡ ok probed
unfolding probe
probe_done = refl

probe_consistent_example :
    (probed.tcp_ok ≡ is_some probed.ping_ms)
    × (probed.tls_ok ≡ true
        → (probed.tcp_ok ≡ true)
          × ((target "a.example").want_tls ≡ true)
          × ((target "a.example").udp ≡ false))
probe_consistent_example = probe_consistent network (target "a.example") probed probe_done

-- A datagram that does not decide in the first round, and an answer after 12 ms in the second.
abbrev answering : Network
answering = record network {
  quic = λ t. opened (
    sent (datagram (1 ∷ []) ∷ []) 500,
    sent (datagram (0x80 ∷ 0 ∷ 0 ∷ 0 ∷ 0 ∷ 1 ∷ 2 ∷ []) ∷ failure ∷ []) 12,
  );
}

quic_done : quic_probe answering (target "a.example") ≡ ok (true, some 12)
unfolding quic_probe
quic_done = refl

quic_probe_lem_example :
    (true ≡ success (decision answering (target "a.example")))
    × (has_time (some 12) ≡ success (decision answering (target "a.example")))
quic_probe_lem_example = quic_probe_lem answering (target "a.example") (true, some 12) quic_done

-- A server name that has no encoding ends the probe, and all of `ping_many`.
raised : ping_many (record network { tls = λ t. raises value_error }) targets ≡ err value_error
unfolding ping_many
raised = refl
