-- ===== src/Build/Stats.antt =====
-- The statistics of a pool.
use weronity_vpn.Prelude.{
  ℕ, ◌+◌, String, ◌≡◌, refl, List, [], ◌∷◌, ◌==◌, if◌then◌else◌, arith, length, count, eq_iff,
}
use weronity_vpn.Prelude.Dict.{Dict, lookup, lookup-insert}
use weronity_vpn.Models.{Node, protocol_name, lifetime_name}
use weronity_vpn.Dedup.{occurrences_of}
use weronity_vpn.Dedup.Totals.{sum_values, sum_values-bump}
use weronity_vpn.Ranking.{country_key}
use weronity_vpn.Build.{bump, counter, stats_of}

counter-sum :
    (key : Node → String) (d : Dict ℕ) (ns : List Node)
    → sum_values (counter key d ns) ≡ sum_values d + length ns
unfolding counter bump
counter-sum key d [] = omega arith
counter-sum key d (n ∷ ns) =
    omega (arith, counter-sum key (bump (key n) d) ns, sum_values-bump (key n) d)

bump-occurrences :
    (j k : String) (d : Dict ℕ)
    → occurrences_of k (bump j d) ≡ (if j == k then 1 else 0) + occurrences_of k d
unfolding bump occurrences_of
bump-occurrences j k d = ground (arith, lookup-insert k j (occurrences_of j d + 1) d, eq_iff j k)

counter-occurrences :
    (key : Node → String) (k : String) (d : Dict ℕ) (ns : List Node)
    → occurrences_of k (counter key d ns) ≡ occurrences_of k d + count (λ n. key n == k) ns
unfolding counter count
counter-occurrences key k d [] = omega arith
counter-occurrences key k d (n ∷ ns) =
    omega (arith, counter-occurrences key k (bump (key n) d) ns, bump-occurrences (key n) k d)

-- For any nodes and any key: the total is the number of nodes, each of the three tables sums up to
-- it, and the entry of the key in each table, 0 if it is absent, is the number of the nodes with that
-- protocol, country key or lifetime class.
pub stats_of_totals :
    (ns : List Node) (k : String)
    → ((stats_of ns).total ≡ length ns)
      × (sum_values (stats_of ns).by_protocol ≡ length ns)
      × (sum_values (stats_of ns).by_country ≡ length ns)
      × (sum_values (stats_of ns).by_lifetime ≡ length ns)
      × (occurrences_of k (stats_of ns).by_protocol ≡ count (λ n. protocol_name n.protocol == k) ns)
      × (occurrences_of k (stats_of ns).by_country ≡ count (λ n. country_key n == k) ns)
      × (occurrences_of k (stats_of ns).by_lifetime
          ≡ count (λ n. lifetime_name n.lifetime.class == k) ns)
unfolding stats_of occurrences_of lookup
stats_of_totals ns k = (
  refl,
  omega (arith, counter-sum (λ n. protocol_name n.protocol) [] ns),
  omega (arith, counter-sum country_key [] ns),
  omega (arith, counter-sum (λ n. lifetime_name n.lifetime.class) [] ns),
  omega (arith, counter-occurrences (λ n. protocol_name n.protocol) k [] ns),
  omega (arith, counter-occurrences country_key k [] ns),
  omega (arith, counter-occurrences (λ n. lifetime_name n.lifetime.class) k [] ns),
)
