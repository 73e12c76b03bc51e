-- ===== src/Resolver.antt =====
-- pipeline/geoip.py, `resolve_ip`: the addresses of hosts, with the cache of the resolver. What
-- `getaddrinfo` answers at a call is an argument: `none` is the error that
-- `resolve_ip` catches, and an entry says whether it is of the family AF_INET. `resolve_ip` is modelled for
-- the hosts whose names have an encoding: Build.Located has the exception of the others.
pub mod Memory
pub mod Lookup
use weronity_vpn.Prelude.{
  String, Bool, true, false, Option, none, some, List, [], ◌∷◌, if◌then◌else◌,
}
use weronity_vpn.Prelude.Dict.{Dict, lookup, insert}

abbrev pub Answer : Type 0
Answer = Option (List (Bool × String))

abbrev pub Cache : Type 0
Cache = Dict (Option String)

-- The loop over the answers, for the first IPv4 address.
unfoldable pub first_ipv4 : List (Bool × String) → Option String
first_ipv4 [] = none
first_ipv4 ((v4, ip) ∷ infos) = let rest = first_ipv4 infos in if v4 then some ip else rest

-- The address of an answer: its first IPv4 one, else its first one.
unfoldable pub choose : Answer → Option String
unfolding first_ipv4
choose none = none
choose (some []) = none
choose (some ((v4, ip) ∷ infos)) = elim (first_ipv4 ((v4, ip) ∷ infos)) [
  | none ↦ some ip
  | some found ↦ some found
]

-- `resolve_ip`; `is_address` tells what `ipaddress.ip_address` accepts
module _ (is_address : String → Bool) where
  unfoldable pub resolve_ip : String → Answer → Cache → Option String × Cache
  unfolding choose lookup insert
  resolve_ip host answer cache =
      if is_address host then (some host, cache) else elim (lookup host cache) [
        | some ip ↦ (ip, cache)
        | none ↦ (choose answer, insert host (choose answer) cache)
      ]

  -- A sequence of calls, each with the answer that the network would give at that moment.
  unfoldable pub resolve_all : List (String × Answer) → Cache → Cache
  unfolding resolve_ip
  resolve_all [] cache = cache
  resolve_all ((host, answer) ∷ calls) cache = resolve_all calls (resolve_ip host answer cache).1
