-- ===== src/GeoTable/Invariant.antt =====
-- The records of the loop rise up to its cursor and begin at address 0.
use Prim.Native.Nat.{max}
use weronity_vpn.Prelude.{
  ℕ, ◌+◌, ◌≡◌, refl, true, false, Option, none, some, List, [], ◌∷◌, ◌++◌, leb, ltb, arith,
  Bool-cases, inl, inr, ◌∙◌,
}
use weronity_vpn.Prelude.Dict.{Dict, lookup}
use weronity_vpn.GeoTable.{Row, Record, flatten, close, with_hole, last_ip}
use weronity_vpn.GeoTable.Reader.{Ordered}
use weronity_vpn.GeoTable.Compress.{Rises, Rises-weaken, Rises-append, begins_at_zero}
use weronity_vpn.GeoTable.Order.{IsRange}

-- An invariant of the loop, from one step of it.
module _ (P : List Record → ℕ → Type 0)
    (skip : (row : Row) (recs : List Record) (cursor : ℕ)
      → IsRange row
      → ltb row.end (max row.start cursor) ≡ true
      → P recs cursor
      → P (with_hole row.start cursor recs) cursor)
    (take : (row : Row) (recs : List Record) (cursor i : ℕ)
      → IsRange row
      → ltb row.end (max row.start cursor) ≡ false
      → P recs cursor
      → P (with_hole row.start cursor recs ++ (max row.start cursor, i) ∷ []) (row.end + 1))
    (index : Dict ℕ) where
  flatten_inv :
      (rows : List Row) (recs : List Record) (cursor : ℕ) (out : List Record) (end : ℕ)
      → Ordered rows
      → P recs cursor
      → flatten index rows recs cursor ≡ some (out, end)
      → P out end
  unfolding flatten
  flatten_inv [] recs cursor out end _ p h =
      let e : recs ≡ out = ground arith in let c : cursor ≡ end = ground arith in rw (← e, ← c) p
  flatten_inv (row ∷ rows) recs cursor out end (fits, _, ordered) p h =
      elim (Bool-cases (ltb row.end (max row.start cursor))) [
        | inl past ↦
            flatten_inv rows (with_hole row.start cursor recs) cursor out end ordered
              (skip row recs cursor fits past p) (ground arith)
        | inr keep ↦ go keep (lookup row.cc index) refl λ i.
            flatten_inv rows (with_hole row.start cursor recs ++ (max row.start cursor, i) ∷ [])
              (row.end + 1) out end ordered (take row recs cursor i fits keep p)
      ]
    where
      go :
          ltb row.end (max row.start cursor) ≡ false
          → (found : Option ℕ) → lookup row.cc index ≡ found
          → ((i : ℕ)
              → flatten index rows
                  (with_hole row.start cursor recs ++ (max row.start cursor, i) ∷ [])
                  (row.end + 1)
                ≡ some (out, end)
              → P out end)
          → P out end
      go keep none e ih = absurd (ground arith)
      go keep (some i) e ih = ih i (ground arith)

-- The records rise up to the cursor, and with one at the cursor they begin at address 0.
abbrev pub IsTable : List Record → ℕ → Type 0
IsTable recs cursor = Rises 0 recs cursor × (begins_at_zero (recs ++ (cursor, 0) ∷ []) ≡ true)

begins-append :
    (recs : List Record) (r : Record) (more : List Record)
    → begins_at_zero (recs ++ r ∷ []) ≡ true
    → begins_at_zero ((recs ++ r ∷ []) ++ more) ≡ true
unfolding begins_at_zero
begins-append [] r more h = h
begins-append (x ∷ recs) r more h = h

begins_same_start :
    (recs : List Record) (s i j : ℕ)
    → begins_at_zero (recs ++ (s, i) ∷ []) ≡ begins_at_zero (recs ++ (s, j) ∷ [])
unfolding begins_at_zero
begins_same_start [] s i j = refl
begins_same_start (x ∷ recs) s i j = refl

skip-IsTable :
    (row : Row) (recs : List Record) (cursor : ℕ)
    → IsRange row
    → ltb row.end (max row.start cursor) ≡ true
    → IsTable recs cursor
    → IsTable (with_hole row.start cursor recs) cursor
skip-IsTable row recs cursor fits past t =
    let e : with_hole row.start cursor recs ≡ recs = ground arith in rw e t

take-IsTable :
    (row : Row) (recs : List Record) (cursor i : ℕ)
    → IsRange row
    → ltb row.end (max row.start cursor) ≡ false
    → IsTable recs cursor
    → IsTable (with_hole row.start cursor recs ++ (max row.start cursor, i) ∷ []) (row.end + 1)
take-IsTable row recs cursor i fits keep (r, b) = elim (Bool-cases (ltb cursor row.start)) [
  | inl hole ↦
      let m : max row.start cursor ≡ row.start = ground arith in
      rw (hole, m)
        (
          Rises-weaken 0 (row.start + 1) (row.end + 1) _
              (Rises-append 0 (cursor + 1) row.start i _
                (Rises-append 0 cursor cursor 0 recs r (omega arith)) (ground arith))
              (omega arith),
          begins-append _ _ _ (begins-append recs (cursor, 0) ((row.start, i) ∷ []) b),
        )
  | inr full ↦
      let m : max row.start cursor ≡ cursor = ground arith in
      rw (full, m)
        (
          Rises-weaken 0 (cursor + 1) (row.end + 1) _
              (Rises-append 0 cursor cursor i recs r (omega arith)) (ground arith),
          begins-append recs (cursor, i) _ (begins_same_start recs cursor i 0 ∙ b),
        )
]

pub flatten-IsTable :
    (index : Dict ℕ) (rows : List Row) (out : List Record) (end : ℕ)
    → Ordered rows
    → flatten index rows [] 0 ≡ some (out, end)
    → IsTable out end
unfolding begins_at_zero
flatten-IsTable index rows out end ordered h =
    flatten_inv IsTable skip-IsTable take-IsTable index rows [] 0 out end ordered
      (omega arith, refl) h

pub close-IsTable :
    (out : List Record) (end : ℕ)
    → IsTable out end
    → Rises 0 (close (out, end)) (end + 1) × (begins_at_zero (close (out, end)) ≡ true)
unfolding close begins_at_zero
close-IsTable [] end (r, b) = ground arith
close-IsTable (x ∷ out) end (r, b) = elim (Bool-cases (leb end last_ip)) [
  | inl room ↦ rw room (Rises-append 0 end end 0 (x ∷ out) r (omega arith), b)
  | inr full ↦ rw full (Rises-weaken 0 end (end + 1) (x ∷ out) r (omega arith), b)
]
