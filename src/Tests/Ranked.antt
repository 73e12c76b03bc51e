-- ===== src/Tests/Ranked.antt =====
-- A run over three nodes of a country, of which two may be recommended.
use weronity_vpn.Prelude.{
  String, ◌≡◌, refl, true, false, some, List, [], ◌∷◌, map, ◌==◌, if◌then◌else◌,
}
use weronity_vpn.Prelude.Int.{pos}
use weronity_vpn.Prelude.Result.{Result, ok}
use weronity_vpn.Models.{ParsedNode, no_geo, Pool}
use weronity_vpn.Ping.{PingTarget, PingResult}
use weronity_vpn.Lifetime.{SeenState}
use weronity_vpn.Build.{Options, build_pool}
use weronity_vpn.Tests.Setup.{
  ascii, lower_ascii, marks, marks_of, calendar, addresses, value_or, blank_node,
}
use weronity_vpn.Tests.Runs.{options, no_state, no_run}

abbrev pings : List PingTarget → Result (List PingResult)
pings targets =
    let answer : PingTarget → PingResult = λ t. record {
      tcp_ok = true;
      tls_ok = true;
      ping_ms =
          some (if t.host == "a.example" then 300 else if t.host == "c.example" then 20 else 40);
    } in
    ok (map answer targets)

abbrev node_at : String → ParsedNode
node_at host = record blank_node { endpoint = record blank_node.endpoint { host = host } }

abbrev parsed : List ParsedNode
parsed = node_at "a.example" ∷ node_at "c.example" ∷ node_at "d.example" ∷ []

abbrev two_each : Options
two_each = record options { per_country = pos 2 }

abbrev ranked : Pool × SeenState
unfolding build_pool lower_ascii marks marks_of
ranked = value_or no_run (
    build_pool ⦃py = ascii⦄ calendar addresses (λ h. no_geo) two_each (λ h. some "1.2.3.4") pings
      no_state parsed)

slowest_of_pool : map (λ n. n.recommended) ranked.0.nodes ≡ false ∷ true ∷ true ∷ []
unfolding build_pool lower_ascii marks marks_of ranked
slowest_of_pool = refl
