-- ===== src/Resolver/Memory.antt =====
-- The resolver answers a host once: later calls repeat the first answer, whatever the network says.
use weronity_vpn.Prelude.{
  String, ◌≡◌, refl, ap, Bool, false, Option, some, List, [], ◌∷◌, arith, eq_iff, Bool-cases, inl,
  inr,
}
use weronity_vpn.Prelude.Dict.{lookup, lookup-insert}
use weronity_vpn.Resolver.{Answer, Cache, choose, resolve_ip, resolve_all}

module _ (is_address : String → Bool) where
  pub resolve_ip_keeps :
      (host other : String) (answer : Answer) (cache : Cache) (ip : Option String)
      → lookup host cache ≡ some ip
      → lookup host (resolve_ip is_address other answer cache).1 ≡ some ip
  unfolding resolve_ip
  resolve_ip_keeps host other answer cache ip h = ground (
    arith,
    lookup-insert host other (choose answer) cache,
    eq_iff other host,
    ap (λ k. lookup k cache),
  )

  pub resolve_all_keeps :
      (host : String) (calls : List (String × Answer)) (cache : Cache) (ip : Option String)
      → lookup host cache ≡ some ip
      → lookup host (resolve_all is_address calls cache) ≡ some ip
  unfolding resolve_all
  resolve_all_keeps host [] cache ip h = h
  resolve_all_keeps host ((other, answer) ∷ calls) cache ip h =
      resolve_all_keeps host calls (resolve_ip is_address other answer cache).1 ip
        (resolve_ip_keeps host other answer cache ip h)

  pub resolve_ip_stores :
      (host : String) (answer : Answer) (cache : Cache)
      → is_address host ≡ false
      → lookup host (resolve_ip is_address host answer cache).1
        ≡ some (resolve_ip is_address host answer cache).0
  unfolding resolve_ip
  resolve_ip_stores host answer cache h =
      ground (arith, lookup-insert host host (choose answer) cache, eq_iff host host)

  pub later_repeats :
      (host : String) (answer : Answer) (cache : Cache) (ip : Option String)
      → is_address host ≡ false
      → lookup host cache ≡ some ip
      → (resolve_ip is_address host answer cache).0 ≡ ip
  unfolding resolve_ip
  later_repeats host answer cache ip name h = ground arith

  -- Once a host was resolved, any calls that follow leave its answer: a later call returns the same,
  -- whatever the network would answer then.
  pub resolve_ip_stable :
      (host : String) (first later : Answer) (calls : List (String × Answer)) (cache : Cache)
      → (resolve_ip is_address host later
          (resolve_all is_address calls (resolve_ip is_address host first cache).1)).0
        ≡ (resolve_ip is_address host first cache).0
  resolve_ip_stable host first later calls cache = elim (Bool-cases (is_address host)) [
    | inl address ↦ unfold resolve_ip in rw address refl
    | inr name ↦
        let kept =
          resolve_all_keeps host calls (resolve_ip is_address host first cache).1
            (resolve_ip is_address host first cache).0 (resolve_ip_stores host first cache name) in
        later_repeats host later _ _ name kept
  ]
