-- ===== src/GeoTable/Numbers.antt =====
-- Every country of a row has a number, so the loop never fails.
use Prim.Native.Nat.{max}
use weronity_vpn.Prelude.{
  ℕ, ◌+◌, ◌≡◌, ◌≢◌, refl, String, true, false, Option, none, some, List, [], ◌∷◌, ◌++◌, ltb, arith,
  All, Bool-cases, inl, inr, length, eq_iff,
}
use weronity_vpn.Prelude.Dict.{Dict, lookup, has, has-insert, lookup-ne-none}
use weronity_vpn.GeoTable.{Row, Record, flatten, with_hole, number_codes, set_default}

-- Every row's country has a number.
abbrev pub Numbered : Dict ℕ → List Row → Type 0
Numbered index = All (λ row. has row.cc index ≡ true)

has-number_codes :
    (k : String) (index : Dict ℕ) (rows : List Row)
    → has k index ≡ true
    → has k (number_codes index rows) ≡ true
unfolding number_codes
has-number_codes k index [] h = h
has-number_codes k index (row ∷ rows) h =
    has-number_codes k (set_default row.cc index) rows
      (ground (arith, has-insert k row.cc (length index) index))

pub number_codes-Numbered :
    (index : Dict ℕ) (rows : List Row) → Numbered (number_codes index rows) rows
unfolding number_codes
number_codes-Numbered index [] = tt
number_codes-Numbered index (row ∷ rows) = (
  has-number_codes row.cc (set_default row.cc index) rows
      (ground (arith, has-insert row.cc row.cc (length index) index, eq_iff row.cc row.cc)),
  number_codes-Numbered (set_default row.cc index) rows,
)

pub flatten-ne-none :
    (index : Dict ℕ) (rows : List Row) (recs : List Record) (cursor : ℕ)
    → Numbered index rows
    → flatten index rows recs cursor ≢ none
unfolding flatten
flatten-ne-none index [] recs cursor _ = cc
flatten-ne-none index (row ∷ rows) recs cursor (known, hs) =
    elim (Bool-cases (ltb row.end (max row.start cursor))) [
      | inl past ↦ rw past (flatten-ne-none index rows _ cursor hs)
      | inr keep ↦
          go keep (lookup row.cc index) refl λ i. flatten-ne-none index rows _ (row.end + 1) hs
    ]
  where
    go :
        ltb row.end (max row.start cursor) ≡ false
        → (found : Option ℕ) → lookup row.cc index ≡ found
        → ((i : ℕ)
            → flatten index rows
                (with_hole row.start cursor recs ++ (max row.start cursor, i) ∷ [])
                (row.end + 1)
              ≢ none)
        → flatten index (row ∷ rows) recs cursor ≢ none
    go keep none e ih = absurd (lookup-ne-none row.cc index known e)
    go keep (some i) e ih = ground (arith, ih i)
