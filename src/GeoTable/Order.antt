-- ===== src/GeoTable/Order.antt =====
-- Sorting the ranges puts them in the order of their first addresses.
use weronity_vpn.Prelude.{ℕ, ◌≤◌, List, [], ◌∷◌, leb, arith, All, Bool-cases, inl, inr}
use weronity_vpn.Prelude.Sort.{sort, place, place-All}
use weronity_vpn.GeoTable.{Row, by_start}
use weronity_vpn.GeoTable.Reader.{Ordered}

abbrev pub IsRange : Row → Type 0
IsRange row = row.start ≤ row.end

All-raise :
    (a b : ℕ) (rows : List Row)
    → a ≤ b
    → All (λ later. b ≤ later.start) rows
    → All (λ later. a ≤ later.start) rows
All-raise a b [] le h = tt
All-raise a b (row ∷ rows) le (h, hs) = (omega arith, All-raise a b rows le hs)

place-Ordered :
    (row : Row) (rows : List Row) → IsRange row → Ordered rows → Ordered (place by_start row rows)
unfolding place
place-Ordered row [] r o = (r, tt, tt)
place-Ordered row (next ∷ rows) r (rn, later, o) = elim (Bool-cases (leb row.start next.start)) [
  | inl first ↦
      rw first (
        r,
        (ground arith, All-raise row.start next.start rows (ground arith) later),
        (rn, later, o),
      )
  | inr after ↦ rw after (
    rn,
    place-All by_start (λ later. next.start ≤ later.start) row rows (ground arith) later,
    place-Ordered row rows r o,
  )
]

pub sort-Ordered : (rows : List Row) → All IsRange rows → Ordered (sort by_start rows)
unfolding sort
sort-Ordered [] h = tt
sort-Ordered (row ∷ rows) (h, hs) = place-Ordered row (sort by_start rows) h (sort-Ordered rows hs)
