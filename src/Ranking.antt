-- ===== src/Ranking.antt =====
-- pipeline/build.py, `_mark_recommended`: the groups by country and the nodes that are recommended. The
-- proofs are in the modules below.
pub mod Groups
pub mod Recommend
pub mod Beats
pub mod Best
use weronity_vpn.Prelude.{
  ℕ, zero, suc, ◌+◌, ◌-◌, ◌*◌, ◌/◌, ◌≤◌, ◌<◌, ◌≡◌, String, ◌<>◌, Char, Bool, true, false, Option,
  none, some, List, [], ◌∷◌, ◌++◌, ◌&&◌, ◌||◌, not, ◌==◌, ltb, leb, eqb, if◌then◌else◌, map, select,
  length, take, any_of,
}
use weronity_vpn.Prelude.Int.{ℤ, pos, negsuc, leb_ℤ, ◌-ℤ◌}
use weronity_vpn.Prelude.Dict.{Dict, lookup, insert, values}
use weronity_vpn.Prelude.Sort.{sort}
use weronity_vpn.Prelude.Text.{is_space, split_by, take_chars, show, one_of}
use weronity_vpn.Prelude.Value.{Value, str, Runtime, truthy, to_str, get}
use weronity_vpn.Prelude.Result.{Result, ok, err, value_error, ◌>>=◌}
use weronity_vpn.Models.{
  Endpoint, ParsedNode, sni, security, stable_id, raw_uri_sha1, Geo, Health, Node, Pool, PoolStats,
  plain, Security, protocol_name, lifetime_name, is_quic,
}
use weronity_vpn.Dedup.{occurrences_of, dedup}
use weronity_vpn.Classify.{Addresses, classify}
use weronity_vpn.Lifetime.{Calendar, SeenState, stamp, observe, lifetime_for}
use weronity_vpn.Outbound.{is_plain, is_salamander, build_outbound}
use weronity_vpn.Ping.{PingTarget, PingResult}

-- `country or "??"`
unfoldable pub country_key : Node → String
country_key n = elim n.geo.country [ none ↦ "??" | some c ↦ if c == "" then "??" else c ]

-- The comparison of the keys of `group.sort`: by falling stability, then by ping.
unfoldable pub ping_key : Node → ℕ
ping_key n = elim n.health.ping_ms [ none ↦ 9999 | some ms ↦ ms ]

unfoldable pub ranks_before : Node → Node → Bool
unfolding ping_key
ranks_before a b =
    let s = a.lifetime.stability in
    let t = b.lifetime.stability in
    if leb_ℤ s t then leb_ℤ t s && leb (ping_key a) (ping_key b) else true

-- A node object with the position of the list that holds it: two equal nodes are two objects.
abbrev pub Placed : Type 0
Placed = ℕ × Node

unfoldable pub group_of : String → Dict (List Placed) → List Placed
unfolding lookup
group_of c groups = elim (lookup c groups) [ none ↦ [] | some g ↦ g ]

-- The loop that fills `by_country`.
unfoldable pub group_nodes : ℕ → List Node → Dict (List Placed) → Dict (List Placed)
unfolding group_of insert country_key
group_nodes i [] groups = groups
group_nodes i (n ∷ ns) groups =
    let c = country_key n in
    group_nodes (i + 1) ns (insert c (group_of c groups ++ (i, n) ∷ []) groups)

-- `group[:k]`
unfoldable pub slice {ℓ} : {A : Type ℓ} → ℤ → List A → List A
unfolding take
slice (pos k) l = take k l
slice (negsuc k) l = take (length l - (k + 1)) l

-- The positions of the nodes that one group recommends, and all groups.
unfoldable pub picks : ℤ → List Placed → List ℕ
unfolding slice sort ranks_before
picks per_country group =
    map (λ x. x.0) (slice per_country (sort (λ a b. ranks_before a.1 b.1) group))

unfoldable pub all_picks : ℤ → List (List Placed) → List ℕ
unfolding picks
all_picks per_country [] = []
all_picks per_country (g ∷ gs) = picks per_country g ++ all_picks per_country gs

-- `n.recommended = True` at the positions
unfoldable pub recommend_at : List ℕ → ℕ → List Node → List Node
unfolding any_of
recommend_at chosen i [] = []
recommend_at chosen i (n ∷ ns) =
    let rest = recommend_at chosen (i + 1) ns in
    if any_of (eqb i) chosen then (record n { recommended = true }) ∷ rest else n ∷ rest

-- `_mark_recommended`
unfoldable pub mark_recommended : ℤ → List Node → List Node
unfolding group_nodes all_picks recommend_at values
mark_recommended per_country nodes =
    recommend_at (all_picks per_country (values (group_nodes 0 nodes []))) 0 nodes
