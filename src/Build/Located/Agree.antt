-- ===== src/Build/Located/Agree.antt =====
-- A node's geo data are those of the address that the node is given.
use weronity_vpn.Prelude.{
  ◌≡◌, refl, sym, ap, ◌∙◌, String, Bool, true, false, Option, none, some, List, [], ◌∷◌,
  if◌then◌else◌, map, arith, All, Bool-cases, inl, inr, eq_iff, ◌==◌,
}
use weronity_vpn.Prelude.Dict.{Dict, lookup, insert, lookup-insert}
use weronity_vpn.Prelude.Text.{one_of}
use weronity_vpn.Prelude.Result.{Result, ok, >>=-eq-ok, ok_inj, some_inj}
use weronity_vpn.Models.{ParsedNode, Geo}
use weronity_vpn.Resolver.{Answer, Cache, choose, resolve_ip, resolve_all}
use weronity_vpn.Resolver.Memory.{
  resolve_ip_keeps, resolve_all_keeps, resolve_ip_stores, later_repeats,
}
use weronity_vpn.Build.{set_ip}
use weronity_vpn.Build.Located.{resolve_hosts, fill_geo, fill_ips, locate, geo_at}

module _ (is_address : String → Bool) (first later : String → Answer)
    (lookup_at : Option String → Result Geo) where
  -- The address of a host: itself, or the one that its first answer has.
  abbrev pub address_of : String → Option String
  address_of host = if is_address host then some host else choose (first host)

  -- The cache has nothing but first answers.
  abbrev IsRight : Cache → Type 0
  IsRight cache =
      (k : String) (ip : Option String) → lookup k cache ≡ some ip → ip ≡ choose (first k)

  -- The cache has the first answer of a name.
  abbrev Knows : Cache → String → Type 0
  Knows cache host = is_address host ≡ false → lookup host cache ≡ some (choose (first host))

  insert-IsRight :
      (host : String) (cache : Cache)
      → IsRight cache
      → IsRight (insert host (choose (first host)) cache)
  insert-IsRight host cache right k ip h = elim (Bool-cases (host == k)) [
    | inl same ↦
        let e : host ≡ k = (eq_iff host k).0 same in
        let stored : some (choose (first host)) ≡ some ip =
          rw same at (sym (lookup-insert k host (choose (first host)) cache) ∙ h) in
        sym (some_inj stored) ∙ ap (λ x. choose (first x)) e
    | inr apart ↦
        right k ip (rw apart at (sym (lookup-insert k host (choose (first host)) cache) ∙ h))
  ]

  empty-IsRight : IsRight []
  unfolding lookup
  empty-IsRight k ip e = cc

  resolve_ip-IsRight :
      (host : String) (cache : Cache)
      → IsRight cache
      → IsRight (resolve_ip is_address host (first host) cache).1
  unfolding resolve_ip
  resolve_ip-IsRight host cache right = elim (Bool-cases (is_address host)) [
    | inl address ↦ rw address right
    | inr name ↦ rw name (go (lookup host cache) refl)
  ]
    where
      go :
          (found : Option (Option String))
          → lookup host cache ≡ found
          → let after : Option String × Cache = elim found [
            | some ip ↦ (ip, cache)
            | none ↦ (choose (first host), insert host (choose (first host)) cache)
          ] in
            IsRight after.1
      go none e = insert-IsRight host cache right
      go (some ip) e = right

  gather-Knows :
      (host : String) (hosts : List String) (cache : Cache)
      → IsRight cache
      → one_of host hosts ≡ true
      → Knows (resolve_all is_address (map (λ h. (h, first h)) hosts) cache) host
  unfolding one_of resolve_all
  gather-Knows host [] cache right h name = absurd (ground arith)
  gather-Knows host (other ∷ hosts) cache right h name = elim (Bool-cases (host == other)) [
    | inr apart ↦
        gather-Knows host hosts _ (resolve_ip-IsRight other cache right) (ground arith) name
    | inl same ↦
        let e : host ≡ other = (eq_iff host other).0 same in
        let stored =
          resolve_ip_stores is_address other (first other) cache (ap is_address (sym e) ∙ name) in
        let fresh = resolve_ip-IsRight other cache right other _ stored in
        resolve_all_keeps is_address host (map (λ h. (h, first h)) hosts)
          (resolve_ip is_address other (first other) cache).1 (choose (first host))
          (rw e (stored ∙ ap some fresh))
  ]

  resolve_ip-address_of :
      (host : String) (answer : Answer) (cache : Cache)
      → Knows cache host
      → (resolve_ip is_address host answer cache).0 ≡ address_of host
  unfolding resolve_ip
  resolve_ip-address_of host answer cache knows = elim (Bool-cases (is_address host)) [
    | inl address ↦ rw address refl
    | inr name ↦ later_repeats is_address host answer cache _ name (knows name) ∙ rw name refl
  ]

  still_Knows :
      (host other : String) (answer : Answer) (cache : Cache)
      → Knows cache host
      → Knows (resolve_ip is_address other answer cache).1 host
  still_Knows host other answer cache knows name =
      resolve_ip_keeps is_address host other answer cache _ (knows name)

  fill_geo_other :
      (host : String) (hosts : List String) (geos geos' : Dict Geo) (cache cache' : Cache)
      → one_of host hosts ≡ false
      → fill_geo is_address first later lookup_at hosts geos cache ≡ ok (geos', cache')
      → lookup host geos' ≡ lookup host geos
  unfolding fill_geo one_of
  fill_geo_other host [] geos geos' cache cache' apart h =
      ap (λ r. lookup host r.0) (sym (ok_inj h))
  fill_geo_other host (other ∷ hosts) geos geos' cache cache' apart h =
      let (geo, _, h') = >>=-eq-ok (lookup_at _) _ h in
      fill_geo_other host hosts (insert other geo geos) geos' _ cache' (ground arith) h'
      ∙ lookup-insert host other geo geos
      ∙ ground (arith, eq_iff host other, eq_iff other host)

  one_of_head : (host : String) (hosts : List String) → one_of host (host ∷ hosts) ≡ true
  unfolding one_of
  one_of_head host hosts = ground (arith, eq_iff host host)

  geo_at-some :
      (geos : Dict Geo) (k : String) (geo : Geo) → lookup k geos ≡ some geo → geo_at geos k ≡ geo
  unfolding geo_at
  geo_at-some geos k geo at = rw (geo_at, at) refl

  -- Every host has the geo data of its address, and the cache keeps what it knows.
  fill_geo_lem :
      (hosts : List String) (geos geos' : Dict Geo) (cache cache' : Cache)
      → ((k : String) → one_of k hosts ≡ true → Knows cache k)
      → fill_geo is_address first later lookup_at hosts geos cache ≡ ok (geos', cache')
      → ((k : String) → Knows cache k → Knows cache' k)
        × ((k : String) → one_of k hosts ≡ true → lookup_at (address_of k) ≡ ok (geo_at geos' k))
  unfolding fill_geo one_of geo_at
  fill_geo_lem [] geos geos' cache cache' knows h = (
    (λ k known name. ap (λ (r : Dict Geo × Cache). lookup k r.1) (sym (ok_inj h)) ∙ known name),
    λ k none_left. absurd (ground arith),
  )
  fill_geo_lem (host ∷ hosts) geos geos' cache cache' knows h =
      let step = resolve_ip is_address host (later host) cache in
      let (geo, found, h') = >>=-eq-ok (lookup_at step.0) _ h in
      let (keeps, placed) =
        fill_geo_lem hosts (insert host geo geos) geos' step.1 cache'
          (λ k waits. still_Knows k host (later host) cache (knows k (ground arith))) h' in
      let own : lookup_at (address_of host) ≡ ok geo =
        ap lookup_at (
          sym (resolve_ip-address_of host (later host) cache (knows host (one_of_head host hosts))))
        ∙ found in
      (
        (λ k known. keeps k (still_Knows k host (later host) cache known)),
        λ k present. elim (Bool-cases (one_of k hosts)) [
          | inl waits ↦ placed k waits
          | inr past ↦
              let same : k ≡ host = (eq_iff k host).0 (ground arith) in
              let at : lookup k geos' ≡ some geo =
                fill_geo_other k hosts (insert host geo geos) geos' step.1 cache' past h'
                ∙ lookup-insert k host geo geos
                ∙ ground (arith, eq_iff host k, sym same) in
              ap (λ x. lookup_at (address_of x)) same
              ∙ own
              ∙ ap ok (sym (geo_at-some geos' k geo at))
        ],
      )

  -- The address of a node is its host's, and the geo data of the host are that address's.
  abbrev pub IsLocated : Dict Geo → ParsedNode → Type 0
  IsLocated geos n =
      (n.endpoint.resolved_ip ≡ address_of n.endpoint.host)
      × (lookup_at n.endpoint.resolved_ip ≡ ok (geo_at geos n.endpoint.host))

  still_All :
      (geos : Dict Geo) (host : String) (answer : Answer) (cache : Cache) (nodes : List ParsedNode)
      → All
          (λ n.
            Knows cache n.endpoint.host
            × (lookup_at (address_of n.endpoint.host) ≡ ok (geo_at geos n.endpoint.host)))
          nodes
      → All
          (λ n.
            Knows (resolve_ip is_address host answer cache).1 n.endpoint.host
            × (lookup_at (address_of n.endpoint.host) ≡ ok (geo_at geos n.endpoint.host)))
          nodes
  still_All geos host answer cache [] _ = tt
  still_All geos host answer cache (n ∷ nodes) ((knows, placed), hs) = (
    (still_Knows n.endpoint.host host answer cache knows, placed),
    still_All geos host answer cache nodes hs,
  )

  fill_ips-IsLocated :
      (geos : Dict Geo) (nodes : List ParsedNode) (cache : Cache)
      → All
          (λ n.
            Knows cache n.endpoint.host
            × (lookup_at (address_of n.endpoint.host) ≡ ok (geo_at geos n.endpoint.host)))
          nodes
      → All (IsLocated geos) (fill_ips is_address first later lookup_at nodes cache)
  unfolding fill_ips set_ip
  fill_ips-IsLocated geos [] cache _ = tt
  fill_ips-IsLocated geos (n ∷ nodes) cache ((knows, placed), hs) =
      let host = n.endpoint.host in
      let same = resolve_ip-address_of host (later host) cache knows in
      (
        (same, ap lookup_at same ∙ placed),
        fill_ips-IsLocated geos nodes _ (still_All geos host (later host) cache nodes hs),
      )

  resolve_hosts-resolve_all :
      (encodes : String → Bool) (hosts : List String) (cache : Cache)
      → resolve_hosts is_address first later lookup_at encodes hosts ≡ ok cache
      → resolve_all is_address (map (λ h. (h, first h)) hosts) [] ≡ cache
  unfolding resolve_hosts
  resolve_hosts-resolve_all encodes hosts cache h = ground arith

  -- However the hosts are ordered, and whatever the network answers after the calls in threads, every
  -- node is given the address of its host, the one that the first answer for the host has, and the geo
  -- data of its host are those of that address.
  pub locate_agrees :
      (encodes : String → Bool) (hosts : List String) (nodes nodes' : List ParsedNode)
      (geos : Dict Geo)
      → All (λ n. one_of n.endpoint.host hosts ≡ true) nodes
      → locate is_address first later lookup_at encodes hosts nodes ≡ ok (geos, nodes')
      → All (IsLocated geos) nodes'
  unfolding locate resolve_hosts
  locate_agrees encodes hosts nodes nodes' geos known h =
      let (resolved, r, h0) =
        >>=-eq-ok (resolve_hosts is_address first later lookup_at encodes hosts) _ h in
      let ((geos', cache), e0, h') =
        >>=-eq-ok (fill_geo is_address first later lookup_at hosts [] resolved) _ h0 in
      let e = rw (← resolve_hosts-resolve_all encodes hosts resolved r) at e0 in
      let (keeps, placed) =
        fill_geo_lem hosts [] geos' _ cache
          (λ k present. gather-Knows k hosts [] empty-IsRight present) e in
      rw (← ap (λ r. r.0) (ok_inj h'), ← ap (λ r. r.1) (ok_inj h'))
        (fill_ips-IsLocated geos' nodes cache (
          each nodes known λ k present.
            (keeps k (gather-Knows k hosts [] empty-IsRight present), placed k present)))
    where
      each :
          {P : String → Type 0} (ns : List ParsedNode)
          → All (λ n. one_of n.endpoint.host hosts ≡ true) ns
          → ((k : String) → one_of k hosts ≡ true → P k)
          → All (λ n. P n.endpoint.host) ns
      each [] _ p = tt
      each (n ∷ ns) (h, hs) p = (p n.endpoint.host h, each ns hs p)
