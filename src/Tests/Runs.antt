-- ===== src/Tests/Runs.antt =====
-- Examples for a harvest, a whole run, and its parts.
use weronity_vpn.Prelude.{
  ℕ, String, ◌≡◌, refl, true, false, Option, none, some, List, [], ◌∷◌, ◌&&◌, map, ◌==◌,
  if◌then◌else◌, All, length, count,
}
use weronity_vpn.Prelude.Int.{pos}
use weronity_vpn.Prelude.Result.{Result, ok}
use weronity_vpn.Models.{ParsedNode, trojan, no_geo, Pool, protocol_name, lifetime_name}
use weronity_vpn.Ping.{PingTarget, PingResult}
use weronity_vpn.Dedup.{occurrences_of}
use weronity_vpn.Dedup.Totals.{sum_values}
use weronity_vpn.Lifetime.{SeenState}
use weronity_vpn.Ranking.{mark_recommended, country_key}
use weronity_vpn.Build.{Options, build_pool, is_public, stats_of}
use weronity_vpn.Harvest.{unknown, RawDocument, Libraries, harvest}
use weronity_vpn.Harvest.Counts.{HasPort, harvest_counts}
use weronity_vpn.Build.Stats.{stats_of_totals}
use weronity_vpn.Ranking.Recommend.{count-mark_recommended}
use Prim.Native.Nat.{min}
use weronity_vpn.Models.{fresh, plain, Node, tcp}
use weronity_vpn.Build.Alive.{IsAlive, Dials, build_pool_reachable}
use weronity_vpn.Tests.Setup.{ascii, lower_ascii, marks, marks_of, calendar, addresses, codec}
use weronity_vpn.Tests.Setup.{value_or, blank_node}

-- A run over two nodes, of which one is on a private network and one answers.
abbrev pub options : Options
options = record {
  timeout_ms = pos 2000;
  per_country = pos 15;
  keep_dead = false;
  allow_private = false;
  source_run = none;
  now = 5_000_000;
}

abbrev pub resolved : String → Option String
resolved host = if host == "a.example" then some "1.2.3.4" else some "10.0.0.1"

abbrev pings : List PingTarget → Result (List PingResult)
pings targets = ok (map (λ t. record { tcp_ok = true; tls_ok = true; ping_ms = some 40 }) targets)

abbrev private_node : ParsedNode
private_node = record blank_node {
  endpoint = record { host = "b.example"; port = pos 80; resolved_ip = none };
}

abbrev pub no_state : SeenState
no_state = record { runs_total = 0; window_h = pos 72; nodes = [] }

abbrev pub no_run : Pool × SeenState
no_run = (
  record {
    schema_version = 1;
    generated_at = "";
    generator = "";
    source_run = none;
    stats = record { total = 0; by_protocol = []; by_country = []; by_lifetime = [] };
    nodes = [];
  },
  no_state,
)

abbrev run_result : Pool × SeenState
unfolding build_pool lower_ascii marks marks_of
run_result = value_or no_run (
    build_pool ⦃py = ascii⦄ calendar addresses (λ h. no_geo) options resolved pings no_state
      (blank_node ∷ private_node ∷ []))

run_done :
    build_pool ⦃py = ascii⦄ calendar addresses
      (λ h. no_geo)
      options
      resolved
      pings
      no_state
      (blank_node ∷ private_node ∷ [])
    ≡ ok run_result
unfolding build_pool lower_ascii marks marks_of run_result
run_done = refl

-- The node on the private network is left out.
one_node : length run_result.0.nodes ≡ 1
unfolding build_pool lower_ascii marks marks_of run_result
one_node = refl

build_pool_reachable_example :
    All
      (λ n. IsAlive (pos 2000) n × (is_public addresses n.endpoint.resolved_ip ≡ true) × Dials n)
      run_result.0.nodes
build_pool_reachable_example =
    build_pool_reachable ⦃py = ascii⦄ calendar addresses (λ h. no_geo) options refl refl resolved
      pings no_state run_result.1 (blank_node ∷ private_node ∷ []) run_result.0 run_done

stats_of_totals_example :
    ((stats_of run_result.0.nodes).total ≡ length run_result.0.nodes)
    × (sum_values (stats_of run_result.0.nodes).by_protocol ≡ length run_result.0.nodes)
    × (sum_values (stats_of run_result.0.nodes).by_country ≡ length run_result.0.nodes)
    × (sum_values (stats_of run_result.0.nodes).by_lifetime ≡ length run_result.0.nodes)
    × (occurrences_of "??" (stats_of run_result.0.nodes).by_protocol
        ≡ count (λ n. protocol_name n.protocol == "??") run_result.0.nodes)
    × (occurrences_of "??" (stats_of run_result.0.nodes).by_country
        ≡ count (λ n. country_key n == "??") run_result.0.nodes)
    × (occurrences_of "??" (stats_of run_result.0.nodes).by_lifetime
        ≡ count (λ n. lifetime_name n.lifetime.class == "??") run_result.0.nodes)
stats_of_totals_example = stats_of_totals run_result.0.nodes "??"

-- Three nodes without a country, of which two may be recommended; the one with the worst ping is not.
abbrev node_with_ping : ℕ → Node
node_with_ping ms = record {
  id = "id";
  protocol = trojan;
  transport = tcp;
  tag = "";
  endpoint = record { host = "a.example"; port = pos 443; resolved_ip = none };
  geo = no_geo;
  health = record { tcp_ok = true; tls_ok = true; ping_ms = some ms; checked_at = "" };
  lifetime = record {
    first_seen = "";
    last_seen = "";
    age_hours = 0;
    class = fresh;
    seen_runs = pos 1;
    stability = pos 1000;
  };
  classification = record {
    sni = none;
    security = plain;
    flow = none;
    cdn = false;
    ipv6 = false;
    udp = false;
  };
  provenance = record { source = ""; source_file = ""; imported = false; raw_uri_sha1 = "" };
  recommended = false;
  raw_uri = "";
  outbound = [];
}

abbrev three_nodes : List Node
three_nodes = node_with_ping 300 ∷ node_with_ping 20 ∷ node_with_ping 40 ∷ []

count-mark_recommended_example :
    count (λ n. (country_key n == "??") && n.recommended) (mark_recommended (pos 2) three_nodes)
    ≡ min 2 (count (λ n. country_key n == "??") three_nodes)
count-mark_recommended_example =
    count-mark_recommended 2 three_nodes "??" (refl, (refl, (refl, tt)))

slowest_left_out :
    map (λ n. n.recommended) (mark_recommended (pos 2) three_nodes) ≡ false ∷ true ∷ true ∷ []
unfolding mark_recommended
slowest_left_out = refl

-- A list of URIs of which one is not parsed, and a document of no known kind.
abbrev pub libraries : Libraries
libraries = record { codec = codec; yaml = λ s. none; strict_base64 = λ s. none }

abbrev documents : List RawDocument
documents =
    record {
      source = "github:x";
      source_file = "list.txt";
      content = "# list\ntrojan://pw@a.example:443\nvless://@b.example:443\n";
      kind = unknown;
    }
    ∷ record { source = "github:x"; source_file = "empty"; content = ""; kind = unknown }
    ∷ []

harvest_counts_example :
    ((harvest ⦃py = ascii⦄ libraries documents).1.documents ≡ length documents)
    × ((harvest ⦃py = ascii⦄ libraries documents).1.parsed
        ≡ length (harvest ⦃py = ascii⦄ libraries documents).0)
    × All HasPort (harvest ⦃py = ascii⦄ libraries documents).0
harvest_counts_example = harvest_counts ⦃py = ascii⦄ libraries documents

one_failed : (harvest ⦃py = ascii⦄ libraries documents).1.failed ≡ 1
unfolding harvest lower_ascii
one_failed = refl
