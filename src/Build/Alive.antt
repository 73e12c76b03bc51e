-- ===== src/Build/Alive.antt =====
-- What a pool's nodes have passed: the reachability check, the filter of addresses, the outbound builder.
use weronity_vpn.Prelude.{
  ℕ, ◌+◌, String, ◌≡◌, refl, sym, ap, ◌∙◌, Bool, true, false, Option, none, some, List, [], ◌∷◌,
  ◌&&◌, ◌||◌, arith, select, map, length, eqb, any_of, All, All-map, All-every, select-All,
  Bool-cases, inl, inr,
}
use weronity_vpn.Prelude.Int.{ℤ, pos, leb_ℤ}
use weronity_vpn.Prelude.Dict.{lookup, values}
use weronity_vpn.Prelude.Value.{Runtime, str, int}
use weronity_vpn.Prelude.Result.{Result, ok, >>=-eq-ok, ok_inj}
use weronity_vpn.Models.{ParsedNode, Node, Pool, Geo, stable_id, protocol_name}
use weronity_vpn.Dedup.{dedup}
use weronity_vpn.Classify.{Addresses, classify}
use weronity_vpn.Lifetime.{Calendar, SeenState, lifetime_for, observe}
use weronity_vpn.Outbound.{build_outbound}
use weronity_vpn.Outbound.Shape.{build_outbound_shape}
use weronity_vpn.Ping.{PingTarget, PingResult}
use weronity_vpn.Ranking.{recommend_at, mark_recommended, all_picks, group_nodes}
use weronity_vpn.Build.{
  is_public, in_time, alive_of, candidates, set_ip, Options, node_for, nodes_for, build_pool,
  ping_target, once, stats_of,
}

recommend_at-All :
    (P : Node → Type 0) (keeps : (n : Node) → P n → P (record n { recommended = true }))
    (chosen : List ℕ) (i : ℕ) (ns : List Node)
    → All P ns
    → All P (recommend_at chosen i ns)
unfolding recommend_at
recommend_at-All P keeps chosen i [] h = tt
recommend_at-All P keeps chosen i (n ∷ ns) (p, h) = elim (Bool-cases (any_of (eqb i) chosen)) [
  | inl hit ↦ rw hit (keeps n p, recommend_at-All P keeps chosen (i + 1) ns h)
  | inr miss ↦ rw miss (p, recommend_at-All P keeps chosen (i + 1) ns h)
]

-- A node and its answer that the loop over the pings keeps: the node is public if that is asked,
-- and the answer came in time unless dead nodes are kept.
abbrev Passed : Addresses → Options → ParsedNode × PingResult → Type 0
Passed net opts (n, res) =
    (opts.allow_private ≡ false → is_public net n.endpoint.resolved_ip ≡ true)
    × (opts.keep_dead ≡ false → in_time opts.timeout_ms res ≡ true)

candidates-All :
    (net : Addresses) (opts : Options) (resolved : String → Option String) (ns : List ParsedNode)
    → All
        (λ n. opts.allow_private ≡ false → is_public net n.endpoint.resolved_ip ≡ true)
        (candidates net opts resolved ns)
unfolding candidates
candidates-All net opts resolved ns = elim (Bool-cases opts.allow_private) [
  | inl hit ↦ All-every (candidates net opts resolved ns) λ n out. absurd cc
  | inr miss ↦
      let public = λ (n : ParsedNode). is_public net n.endpoint.resolved_ip in
      let located = map (set_ip resolved) ns in
      let free : All (λ n. opts.allow_private ≡ false → public n ≡ true) (select public located) =
        All-map (select public located) (λ n p _. p) (select-All public located) in
      rw miss (rw miss at free)
]

alive_of-All :
    (net : Addresses) (opts : Options) (ns : List ParsedNode) (rs : List PingResult)
    (alive : List (ParsedNode × PingResult))
    → All (λ n. opts.allow_private ≡ false → is_public net n.endpoint.resolved_ip ≡ true) ns
    → alive_of opts.timeout_ms opts.keep_dead ns rs ≡ ok alive
    → All (Passed net opts) alive
unfolding alive_of
alive_of-All net opts [] [] alive h e = rw (← ok_inj e) tt
alive_of-All net opts [] (r ∷ rs) alive h e = cc
alive_of-All net opts (n ∷ ns) [] alive h e = cc
alive_of-All net opts (n ∷ ns) (r ∷ rs) alive (p, h) e =
    let (rest, r1, r2) = >>=-eq-ok (alive_of opts.timeout_ms opts.keep_dead ns rs) _ e in
    elim (Bool-cases (in_time opts.timeout_ms r || opts.keep_dead)) [
      | inl hit ↦
          rw (← ok_inj r2, hit) ((p, λ k. ground arith), alive_of-All net opts ns rs rest h r1)
      | inr miss ↦ rw (← ok_inj r2, miss) (alive_of-All net opts ns rs rest h r1)
    ]

-- The answer came in time: what the health block of a node says.
abbrev pub IsAlive : ℤ → Node → Type 0
IsAlive timeout_ms n =
    (n.health.tcp_ok ≡ true)
    × (ms : ℕ) × (n.health.ping_ms ≡ some ms)
    × (leb_ℤ (pos ms) timeout_ms ≡ true)

-- The outbound of a node speaks the node's protocol with the node's endpoint.
abbrev pub Dials : Node → Type 0
Dials n =
    (lookup "server" n.outbound ≡ some (str n.endpoint.host))
    × (lookup "server_port" n.outbound ≡ some (int n.endpoint.port))
    × (lookup "type" n.outbound ≡ some (str (protocol_name n.protocol)))

within_of_test :
    (timeout_ms : ℤ) (up : Bool) (ping : Option ℕ)
    → (up && elim ping [ none ↦ false | some ms ↦ leb_ℤ (pos ms) timeout_ms ]) ≡ true
    → (up ≡ true) × (ms : ℕ) × (ping ≡ some ms) × (leb_ℤ (pos ms) timeout_ms ≡ true)
within_of_test timeout_ms false ping h = cc
within_of_test timeout_ms true none h = cc
within_of_test timeout_ms true (some ms) h = (refl, ms, refl, h)

in_time-IsAlive :
    (timeout_ms : ℤ) (res : PingResult)
    → in_time timeout_ms res ≡ true
    → (res.tcp_ok ≡ true) × (ms : ℕ) × (res.ping_ms ≡ some ms) × (leb_ℤ (pos ms) timeout_ms ≡ true)
unfolding in_time
in_time-IsAlive timeout_ms res h = within_of_test timeout_ms res.tcp_ok res.ping_ms h

module _ ⦃py : Runtime⦄ (cal : Calendar) (net : Addresses) (geo_of : String → Geo)
    (opts : Options) where
  node_for_lem :
      (seen : SeenState) (n : ParsedNode) (res : PingResult) (node : Node)
      → node_for cal net geo_of opts seen n res ≡ ok node
      → (node.endpoint ≡ n.endpoint)
        × (node.health.tcp_ok ≡ res.tcp_ok)
        × (node.health.ping_ms ≡ res.ping_ms)
        × Dials node
  unfolding node_for
  node_for_lem seen n res node h =
      let (lifetime, _, r1) = >>=-eq-ok (lifetime_for cal (stable_id n) opts.now seen) _ h in
      let (cls, _, r2) = >>=-eq-ok (classify net n (geo_of n.endpoint.host)) _ r1 in
      let (ob, made, r3) = >>=-eq-ok (build_outbound n) _ r2 in
      let (host, port, _, kind, _, _) = build_outbound_shape n ob made in
      (
        ap (λ m. m.endpoint) (sym (ok_inj r3)),
        ap (λ m. m.health.tcp_ok) (sym (ok_inj r3)),
        ap (λ m. m.health.ping_ms) (sym (ok_inj r3)),
        rw (← ok_inj r3) (host, port, kind),
      )

  -- The total of a built pool is the number of its nodes.
  pub build_pool-total :
      (resolved : String → Option String) (ping_many : List PingTarget → Result (List PingResult))
      (seen seen' : SeenState) (parsed : List ParsedNode) (pool : Pool)
      → build_pool cal net geo_of opts resolved ping_many seen parsed ≡ ok (pool, seen')
      → pool.stats.total ≡ length pool.nodes
  unfolding build_pool stats_of
  build_pool-total resolved ping_many seen seen' parsed pool h =
      let chosen = candidates net opts resolved (dedup parsed).nodes in
      let (pings, _, r0) = >>=-eq-ok (ping_many (map ping_target chosen)) _ h in
      let (alive, _, r2) = >>=-eq-ok (alive_of opts.timeout_ms opts.keep_dead chosen pings) _ r0 in
      let (s, _, r4) =
        >>=-eq-ok (observe cal (once (map (λ a. stable_id a.0) alive)) opts.now seen) _ r2 in
      let (built, _, r6) = >>=-eq-ok (nodes_for cal net geo_of opts s alive) _ r4 in
      rw (← ap (λ x. x.0) (ok_inj r6)) refl

  module _ (live : opts.keep_dead ≡ false) (public_only : opts.allow_private ≡ false) where
    abbrev Good : Node → Type 0
    Good n = IsAlive opts.timeout_ms n × (is_public net n.endpoint.resolved_ip ≡ true) × Dials n

    nodes_for-Good :
        (seen : SeenState) (alive : List (ParsedNode × PingResult)) (nodes : List Node)
        → All (Passed net opts) alive
        → nodes_for cal net geo_of opts seen alive ≡ ok nodes
        → All Good nodes
    unfolding nodes_for
    nodes_for-Good seen [] nodes h e = rw (← ok_inj e) tt
    nodes_for-Good seen ((n, res) ∷ rest) nodes ((p, q), h) e =
        let (node, r1, r2) = >>=-eq-ok (node_for cal net geo_of opts seen n res) _ e in
        let (nodes', r3, r4) = >>=-eq-ok (nodes_for cal net geo_of opts seen rest) _ r2 in
        let (same_place, same_ok, same_ms, dials) = node_for_lem seen n res node r1 in
        let (up, ms, at, within) = in_time-IsAlive opts.timeout_ms res (q live) in
        rw (← ok_inj r4) (
          (
            (same_ok ∙ up, ms, same_ms ∙ at, within),
            ap (λ m. is_public net m.resolved_ip) same_place ∙ p public_only,
            dials,
          ),
          nodes_for-Good seen rest nodes' h r3,
        )

    -- In a pool that is built without the options to keep dead nodes and to allow private addresses,
    -- every node has answered, within the timeout, none has a resolved address that is not public, and
    -- the outbound of each names the host, the port and the protocol of the node.
    pub build_pool_reachable :
        (resolved : String → Option String) (ping_many : List PingTarget → Result (List PingResult))
        (seen seen' : SeenState) (parsed : List ParsedNode) (pool : Pool)
        → build_pool cal net geo_of opts resolved ping_many seen parsed ≡ ok (pool, seen')
        → All
            (λ n.
              IsAlive opts.timeout_ms n × (is_public net n.endpoint.resolved_ip ≡ true) × Dials n)
            pool.nodes
    unfolding build_pool mark_recommended
    build_pool_reachable resolved ping_many seen seen' parsed pool h =
        let chosen = candidates net opts resolved (dedup parsed).nodes in
        let (pings, _, r0) = >>=-eq-ok (ping_many (map ping_target chosen)) _ h in
        let (alive, r1, r2) =
          >>=-eq-ok (alive_of opts.timeout_ms opts.keep_dead chosen pings) _ r0 in
        let (s, r3, r4) =
          >>=-eq-ok (observe cal (once (map (λ a. stable_id a.0) alive)) opts.now seen) _ r2 in
        let (built, r5, r6) = >>=-eq-ok (nodes_for cal net geo_of opts s alive) _ r4 in
        rw (← ap (λ x. x.0.nodes) (ok_inj r6)) (
          recommend_at-All Good (λ n g. g)
            (all_picks opts.per_country (values (group_nodes 0 built []))) 0 built
            (nodes_for-Good s alive built
              (alive_of-All net opts chosen _ alive
                (candidates-All net opts resolved (dedup parsed).nodes) r1)
              r5))
