-- ===== src/Build/Located.antt =====
-- pipeline/build.py: the addresses and the geo data of the hosts, before the pings. What the network
-- answers is an argument, for the calls in threads and for the later ones. The proofs are in the module
-- below.
pub mod Agree
use weronity_vpn.Prelude.{
  String, Bool, true, false, Option, none, some, List, [], ◌∷◌, map, not, any_of, ◌&&◌,
}
use weronity_vpn.Prelude.Dict.{Dict, lookup, insert}
use weronity_vpn.Prelude.Value.{Runtime}
use weronity_vpn.Prelude.Result.{Result, ok, err, value_error, guard, ◌>>=◌, ◌>>◌}
use weronity_vpn.Models.{ParsedNode, Geo, no_geo}
use weronity_vpn.Resolver.{Answer, Cache, resolve_ip, resolve_all}
use weronity_vpn.Build.{once, set_ip}

-- `hosts`: the hosts of the nodes, each once, in any order that a set has
abbrev pub hosts_of : List ParsedNode → List String
hosts_of nodes = once (map (λ n. n.endpoint.host) nodes)

module _ (is_address : String → Bool) (first later : String → Answer)
    (lookup_at : Option String → Result Geo) where
  -- The calls in threads: each host is resolved, in any order. `getaddrinfo` raises `UnicodeError` for a
  -- name that has no encoding, as one with an empty or a long label, and so does `gather` then.
  unfoldable pub resolve_hosts : (String → Bool) → List String → Result Cache
  unfolding resolve_all any_of
  resolve_hosts encodes hosts = do
    guard (not (any_of (λ h. not (is_address h) && not (encodes h)) hosts)) value_error
    ok (resolve_all is_address (map (λ h. (h, first h)) hosts) [])

  -- The loop that fills `geo_by_host`; `lookup` resolves the host once more.
  unfoldable pub fill_geo : List String → Dict Geo → Cache → Result (Dict Geo × Cache)
  unfolding resolve_ip insert
  fill_geo [] geos cache = ok (geos, cache)
  fill_geo (host ∷ hosts) geos cache = do
    let (ip, cache') = resolve_ip is_address host (later host) cache
    geo ← lookup_at ip
    fill_geo hosts (insert host geo geos) cache'

  -- The loop that sets the nodes' addresses.
  unfoldable pub fill_ips : List ParsedNode → Cache → List ParsedNode
  unfolding resolve_ip set_ip
  fill_ips [] cache = []
  fill_ips (n ∷ nodes) cache =
      let (ip, cache') = resolve_ip is_address n.endpoint.host (later n.endpoint.host) cache in
      set_ip (λ host. ip) n ∷ fill_ips nodes cache'

  -- The three loops, on the hosts in their order: the geo data, and the nodes with their addresses.
  unfoldable pub locate :
      (String → Bool) → List String → List ParsedNode → Result (Dict Geo × List ParsedNode)
  unfolding resolve_hosts fill_geo fill_ips
  locate encodes hosts nodes = do
    resolved ← resolve_hosts encodes hosts
    (geos, cache) ← fill_geo hosts [] resolved
    ok (geos, fill_ips nodes cache)

-- `geo_by_host.get(host, Geo())`
unfoldable pub geo_at : Dict Geo → String → Geo
unfolding lookup
geo_at geos host = elim (lookup host geos) [ none ↦ no_geo | some geo ↦ geo ]
