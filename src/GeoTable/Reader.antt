-- ===== src/GeoTable/Reader.antt =====
-- The documented way to read the table: the last record whose first address is at most the one that
-- is looked up.
use weronity_vpn.Prelude.{
  ℕ, none, some, ◌≤◌, ◌<◌, ◌≡◌, refl, Bool, List, [], ◌∷◌, ◌++◌, leb, ◌&&◌, arith, if◌then◌else◌,
  All,
}
use weronity_vpn.Prelude.Dict.{Dict, lookup}
use weronity_vpn.GeoTable.{Row, Record}

-- The country number at an address, from the answer `i` of the records before.
unfoldable pub read_from : ℕ → List Record → ℕ → ℕ
read_from i [] ip = i
read_from i ((s, j) ∷ recs) ip = read_from (if leb s ip then j else i) recs ip

abbrev pub read : List Record → ℕ → ℕ
read = read_from 0

pub read_from-append :
    (i : ℕ) (recs more : List Record) (ip : ℕ)
    → read_from i (recs ++ more) ip ≡ read_from (read_from i recs ip) more ip
unfolding read_from
read_from-append i [] more ip = refl
read_from-append i ((s, j) ∷ recs) more ip =
    read_from-append (if leb s ip then j else i) recs more ip

abbrev pub covers : ℕ → Row → Bool
covers ip row = leb row.start ip && leb ip row.end

-- The number of the first row that covers an address, and 0 where none does.
unfoldable pub owner : Dict ℕ → List Row → ℕ → ℕ
unfolding lookup
owner index [] ip = 0
owner index (row ∷ rows) ip =
    let rest = owner index rows ip in
    let own : ℕ = elim (lookup row.cc index) [ none ↦ 0 | some i ↦ i ] in
    if covers ip row then own else rest

-- Rows in the order of their first addresses, each a range.
abbrev pub Ordered : List Row → Type 0
Ordered [] = Unit
Ordered (row ∷ rows) =
    (row.start ≤ row.end) × All (λ later. row.start ≤ later.start) rows × Ordered rows

pub owner_below :
    (index : Dict ℕ) (rows : List Row) (n ip : ℕ)
    → All (λ later. n ≤ later.start) rows
    → ip < n
    → owner index rows ip ≡ 0
unfolding owner
owner_below index [] n ip h lt = refl
owner_below index (row ∷ rows) n ip (h, hs) lt = ground (arith, owner_below index rows n ip hs lt)
