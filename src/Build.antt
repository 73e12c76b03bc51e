-- ===== src/Build.antt =====
-- pipeline/build.py: the pool, from the deduplicated nodes and the answers of the resolver and of the
-- pings. The proofs are in the modules below.
pub mod Stats
pub mod Alive
pub mod Located
pub mod Ranked
use weronity_vpn.Prelude.{
  ℕ, zero, suc, ◌+◌, ◌-◌, ◌*◌, ◌/◌, ◌≤◌, ◌<◌, ◌≡◌, String, ◌<>◌, Char, Bool, true, false, Option,
  none, some, List, [], ◌∷◌, ◌++◌, ◌&&◌, ◌||◌, not, ◌==◌, ltb, leb, eqb, if◌then◌else◌, map, select,
  length, take, any_of,
}
use weronity_vpn.Prelude.Int.{ℤ, pos, negsuc, leb_ℤ, ◌-ℤ◌}
use weronity_vpn.Prelude.Dict.{Dict, lookup, insert, values}
use weronity_vpn.Prelude.Sort.{sort}
use weronity_vpn.Prelude.Text.{is_space, split_by, take_chars, show, one_of}
use weronity_vpn.Prelude.Value.{Value, str, Runtime, truthy, to_str, get}
use weronity_vpn.Prelude.Result.{Result, ok, err, value_error, ◌>>=◌}
use weronity_vpn.Models.{
  Endpoint, ParsedNode, sni, security, stable_id, raw_uri_sha1, Geo, Health, Node, Pool, PoolStats,
  plain, Security, protocol_name, lifetime_name, is_quic,
}
use weronity_vpn.Dedup.{occurrences_of, dedup}
use weronity_vpn.Classify.{Addresses, classify}
use weronity_vpn.Lifetime.{Calendar, SeenState, stamp, observe, lifetime_for}
use weronity_vpn.Outbound.{is_plain, is_salamander, build_outbound}
use weronity_vpn.Ranking.{country_key, mark_recommended}
use weronity_vpn.Ping.{PingTarget, PingResult}

-- `_is_public`
unfoldable pub is_public : Addresses → Option String → Bool
is_public net none = true
is_public net (some ip) = elim (net.is_global ip) [ none ↦ false | some global ↦ global ]

-- `"".join(ch for ch in tag if ch.isprintable())`
unfoldable pub only_printable : ⦃py : Runtime⦄ → String → String
only_printable String.[] = ""
only_printable ⦃py⦄ (String.◌∷◌ c s) =
    let rest = only_printable s in if py.printable c then String.◌∷◌ c rest else rest

-- `" ".join(words)`
unfoldable pub join_words : List String → String
join_words [] = ""
join_words (w ∷ []) = w
join_words (w ∷ v ∷ ws) = w <> " " <> join_words (v ∷ ws)

-- `_clean_tag`
unfoldable pub clean_tag : ⦃py : Runtime⦄ → String → String
unfolding only_printable join_words split_by is_space take_chars select
clean_tag tag =
    take_chars 64
      (join_words (select (λ w. not (w == "")) (split_by is_space (only_printable tag))))

-- `_ping_target`
unfoldable pub ping_target : ⦃py : Runtime⦄ → ParsedNode → PingTarget
unfolding sni security is_quic get truthy to_str
ping_target n =
    let udp = is_quic n.protocol in
    let obfs = get "obfs_password" n.params in
    record {
      host = n.endpoint.host;
      port = n.endpoint.port;
      sni = sni n;
      want_tls = not udp && not (is_plain (security n));
      udp = udp;
      obfs_password =
          if is_salamander (get "obfs" n.params) && truthy obfs then some (to_str obfs) else none;
    }

-- `res.tcp_ok and res.ping_ms is not None and res.ping_ms <= timeout_ms`
unfoldable pub in_time : ℤ → PingResult → Bool
in_time timeout_ms res =
    res.tcp_ok && elim res.ping_ms [ none ↦ false | some ms ↦ leb_ℤ (pos ms) timeout_ms ]

-- The loop that fills `alive`; a strict `zip` raises at the end of the shorter list.
unfoldable pub alive_of :
    ℤ → Bool → List ParsedNode → List PingResult → Result (List (ParsedNode × PingResult))
unfolding in_time
alive_of timeout_ms keep_dead [] [] = ok []
alive_of timeout_ms keep_dead (n ∷ ns) (r ∷ rs) = do
  rest ← alive_of timeout_ms keep_dead ns rs
  ok (if in_time timeout_ms r || keep_dead then (n, r) ∷ rest else rest)
alive_of timeout_ms keep_dead _ _ = err value_error

-- A list as a set.
unfoldable pub once : List String → List String
unfolding one_of
once [] = []
once (s ∷ ss) = let rest = once ss in if one_of s rest then rest else s ∷ rest

-- `dict(Counter(...))`
unfoldable pub bump : String → Dict ℕ → Dict ℕ
unfolding insert occurrences_of
bump k d = insert k (occurrences_of k d + 1) d

unfoldable pub counter : (Node → String) → Dict ℕ → List Node → Dict ℕ
unfolding bump
counter key d [] = d
counter key d (n ∷ ns) = counter key (bump (key n) d) ns

-- `_stats`
unfoldable pub stats_of : List Node → PoolStats
unfolding counter country_key protocol_name lifetime_name
stats_of nodes = record {
  total = length nodes;
  by_protocol = counter (λ n. protocol_name n.protocol) [] nodes;
  by_country = counter country_key [] nodes;
  by_lifetime = counter (λ n. lifetime_name n.lifetime.class) [] nodes;
}

-- What the run is told: the options of `build_pool` and the answers of the resolver.
pub record Options : Type 0 where
  pub timeout_ms : ℤ
  pub per_country : ℤ
  pub keep_dead : Bool
  pub allow_private : Bool
  pub source_run : Option String
  pub now : ℕ

-- `node.endpoint.resolved_ip = geo.resolve_ip(node.endpoint.host)`
unfoldable pub set_ip : (String → Option String) → ParsedNode → ParsedNode
set_ip resolved n = record n {
  endpoint = record n.endpoint { resolved_ip = resolved n.endpoint.host };
}

-- The nodes that are pinged.
unfoldable pub candidates :
    Addresses → Options → (String → Option String) → List ParsedNode → List ParsedNode
unfolding select is_public set_ip
candidates net opts resolved nodes =
    let located = map (set_ip resolved) nodes in
    if opts.allow_private
    then located
    else select (λ n. is_public net n.endpoint.resolved_ip) located

abbrev pub or_text : String → String → String
or_text default text = if text == "" then default else text

module _ ⦃py : Runtime⦄ (cal : Calendar) (net : Addresses) (geo_of : String → Geo)
    (opts : Options) where
  -- One round of the loop over `alive`.
  unfoldable pub node_for : SeenState → ParsedNode → PingResult → Result Node
  unfolding stable_id lifetime_for classify build_outbound clean_tag raw_uri_sha1 show
  node_for seen n res = do
    lifetime ← lifetime_for cal (stable_id n) opts.now seen
    cls ← classify net n (geo_of n.endpoint.host)
    ob ← build_outbound n
    ok (record {
      id = stable_id n;
      protocol = n.protocol;
      transport = n.transport;
      tag = or_text (n.endpoint.host <> ":" <> show n.endpoint.port) (clean_tag n.tag);
      endpoint = n.endpoint;
      geo = geo_of n.endpoint.host;
      health = record {
        tcp_ok = res.tcp_ok;
        tls_ok = res.tls_ok;
        ping_ms = res.ping_ms;
        checked_at = stamp cal opts.now;
      };
      lifetime = lifetime;
      classification = cls;
      provenance = record {
        source = or_text "unknown" n.source;
        source_file = n.source_file;
        imported = false;
        raw_uri_sha1 = raw_uri_sha1 n;
      };
      recommended = false;
      raw_uri = n.raw_uri;
      outbound = ob;
    })

  unfoldable pub nodes_for : SeenState → List (ParsedNode × PingResult) → Result (List Node)
  unfolding node_for
  nodes_for seen [] = ok []
  nodes_for seen ((n, res) ∷ rest) = do
    node ← node_for seen n res
    nodes ← nodes_for seen rest
    ok (node ∷ nodes)

  -- `build_pool`, for the addresses that the resolver gives, and for the results of the pings of
  -- the candidates' targets. The state is loaded before and saved after.
  unfoldable pub build_pool :
      (String → Option String)
      → (List PingTarget → Result (List PingResult))
      → SeenState
      → List ParsedNode
      → Result (Pool × SeenState)
  unfolding dedup candidates ping_target alive_of once observe nodes_for mark_recommended stats_of
      stable_id
  build_pool resolved ping_many seen parsed = do
    let chosen = candidates net opts resolved (dedup parsed).nodes
    pings ← ping_many (map ping_target chosen)
    alive ← alive_of opts.timeout_ms opts.keep_dead chosen pings
    seen' ← observe cal (once (map (λ a. stable_id a.0) alive)) opts.now seen
    built ← nodes_for seen' alive
    let nodes = mark_recommended opts.per_country built
    ok (
      record {
        schema_version = 1;
        generated_at = stamp cal opts.now;
        generator = "weronity-collector/0.1.0";
        source_run = opts.source_run;
        stats = stats_of nodes;
        nodes = nodes;
      },
      seen',
    )
