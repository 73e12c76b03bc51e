-- ===== src/Lifetime/Prune.antt =====
-- What `_prune` keeps: every entry whose last sighting is inside the window, and no other.
use weronity_vpn.Prelude.{
  ℕ, ◌≡◌, refl, String, Bool, true, false, Option, none, some, List, [], ◌∷◌, if◌then◌else◌, arith,
  All, eq_iff,
}
use weronity_vpn.Prelude.Int.{ℤ}
use weronity_vpn.Prelude.Dict.{
  Dict, lookup, erase, lookup-erase, lookup-has, Distinct, erase-Distinct, erase-All,
}
use weronity_vpn.Prelude.Text.{one_of}
use weronity_vpn.Prelude.Value.{Runtime}
use weronity_vpn.Prelude.Result.{Result, ok, err}
use weronity_vpn.Lifetime.{
  Calendar, Entry, instant, is_stale, in_calendar, stale_ids, erase_all, prune,
}

module _ ⦃py : Runtime⦄ (cal : Calendar) where
  -- The last sighting of an entry can be read.
  abbrev pub IsDated : String × Entry → Type 0
  IsDated (sid, e) = (last : ℕ) × (instant cal "last_seen" e ≡ ok last)

  abbrev pub stale_at : ℕ → ℤ → Result ℕ → Bool
  stale_at now window (ok last) = is_stale now window last
  stale_at now window (err e) = false

  -- An entry after the pruning.
  abbrev pub survivor : ℕ → ℤ → Option Entry → Option Entry
  survivor now window none = none
  survivor now window (some e) =
      if stale_at now window (instant cal "last_seen" e) then none else some e

  abbrev entry_stale : ℕ → ℤ → Option Entry → Bool
  entry_stale now window none = false
  entry_stale now window (some e) = stale_at now window (instant cal "last_seen" e)

  stale_ids_lem :
      (now : ℕ) (window : ℤ) (nodes : Dict Entry)
      → All IsDated nodes
      → Distinct nodes
      → (drop : List String) × (stale_ids cal now window nodes ≡ ok drop)
        × ((k : String) → one_of k drop ≡ entry_stale now window (lookup k nodes))
  unfolding stale_ids one_of lookup
  stale_ids_lem now window [] _ _ = ([], refl, λ k. refl)
  stale_ids_lem now window ((sid, e) ∷ nodes) ((last, dated), ds) (fresh, distinct) =
      let (rest, runs, member) = stale_ids_lem now window nodes ds distinct in
      (
        (if is_stale now window last then sid ∷ rest else rest),
        rw (dated, runs),
        λ k.
            ground (arith, dated, member k, eq_iff k sid, eq_iff sid k, lookup-has sid nodes fresh),
      )

lookup-erase_all :
    (k : String) (drop : List String) (nodes : Dict Entry)
    → lookup k (erase_all drop nodes) ≡ (if one_of k drop then none else lookup k nodes)
unfolding erase_all one_of
lookup-erase_all k [] nodes = refl
lookup-erase_all k (sid ∷ drop) nodes = ground (
  arith,
  lookup-erase_all k drop (erase sid nodes),
  lookup-erase k sid nodes,
  eq_iff k sid,
  eq_iff sid k,
)

erase_all-Distinct :
    (drop : List String) (nodes : Dict Entry) → Distinct nodes → Distinct (erase_all drop nodes)
unfolding erase_all
erase_all-Distinct [] nodes h = h
erase_all-Distinct (sid ∷ drop) nodes h =
    erase_all-Distinct drop (erase sid nodes) (erase-Distinct sid nodes h)

module _ (P : String × Entry → Type 0) where
  erase_all-All :
      (drop : List String) (nodes : Dict Entry) → All P nodes → All P (erase_all drop nodes)
  unfolding erase_all
  erase_all-All [] nodes h = h
  erase_all-All (sid ∷ drop) nodes h =
      erase_all-All drop (erase sid nodes) (erase-All P sid nodes h)

module _ ⦃py : Runtime⦄ (cal : Calendar) (P : String × Entry → Type 0) where
  pub prune_lem :
      (now : ℕ) (window : ℤ) (nodes : Dict Entry)
      → All (IsDated cal) nodes
      → All P nodes
      → Distinct nodes
      → in_calendar cal now window ≡ true
      → (kept : Dict Entry) × (prune cal now window nodes ≡ ok kept)
        × All P kept
        × Distinct kept
        × ((k : String) → lookup k kept ≡ survivor cal now window (lookup k nodes))
  unfolding prune
  prune_lem now window nodes dated all distinct fits =
      let (drop, runs, member) = stale_ids_lem cal now window nodes dated distinct in
      (
        erase_all drop nodes,
        rw (fits, runs),
        erase_all-All P drop nodes all,
        erase_all-Distinct drop nodes distinct,
        λ k. ground (arith, lookup-erase_all k drop nodes, member k),
      )
