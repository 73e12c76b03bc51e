-- ===== src/GeoTable/File/Within.antt =====
-- The records of a table that is built fit into the file: 32-bit addresses, numbers of known codes.
use Prim.Native.Nat.{max}
use weronity_vpn.Prelude.{
  ℕ, ◌+◌, ◌≤◌, ◌<◌, ◌≡◌, refl, String, false, Option, none, some, List, [], ◌∷◌, ◌++◌, leb, ltb,
  arith, All, All-append, Bool-cases, inl, inr,
}
use weronity_vpn.Prelude.Dict.{Dict, lookup}
use weronity_vpn.GeoTable.{
  Row, Record, flatten, close, compress, with_hole, last_ip, ends_with_index,
}

-- The last address of a row is a 32-bit one.
abbrev pub IsSmall : Row → Type 0
IsSmall row = (row.start ≤ row.end) × (row.end ≤ last_ip)

-- A record of a 32-bit address and a number below `n`.
abbrev pub Within : ℕ → Record → Type 0
Within n (s, i) = (s ≤ last_ip) × (i < n)

module _ (n : ℕ) (some_code : 0 < n) where
  hole-Within :
      (start cursor : ℕ) (recs : List Record)
      → start ≤ last_ip
      → All (Within n) recs
      → All (Within n) (with_hole start cursor recs)
  hole-Within start cursor recs small h = elim (Bool-cases (ltb cursor start)) [
    | inl hole ↦ rw hole (All-append (Within n) recs _ h ((ground arith, some_code), tt))
    | inr full ↦ rw full h
  ]

  module _ (index : Dict ℕ) (known : (k : String) (i : ℕ) → lookup k index ≡ some i → i < n) where
    pub flatten-Within :
        (rows : List Row) (recs : List Record) (cursor : ℕ) (out : List Record) (end : ℕ)
        → All IsSmall rows
        → All (Within n) recs
        → flatten index rows recs cursor ≡ some (out, end)
        → All (Within n) out
    unfolding flatten
    flatten-Within [] recs cursor out end _ h e =
        let same : recs ≡ out = ground arith in rw (← same) h
    flatten-Within (row ∷ rows) recs cursor out end ((range, small), smalls) h e =
        elim (Bool-cases (ltb row.end (max row.start cursor))) [
          | inl past ↦
              flatten-Within rows (with_hole row.start cursor recs) cursor out end smalls
                (hole-Within row.start cursor recs (omega arith) h) (ground arith)
          | inr keep ↦ go keep (lookup row.cc index) refl λ i.
              flatten-Within rows
                (with_hole row.start cursor recs ++ (max row.start cursor, i) ∷ []) (row.end + 1)
                out end smalls
        ]
      where
        go :
            ltb row.end (max row.start cursor) ≡ false
            → (found : Option ℕ) → lookup row.cc index ≡ found
            → ((i : ℕ)
                → All (Within n) (with_hole row.start cursor recs ++ (max row.start cursor, i) ∷ [])
                → flatten index rows
                    (with_hole row.start cursor recs ++ (max row.start cursor, i) ∷ [])
                    (row.end + 1)
                  ≡ some (out, end)
                → All (Within n) out)
            → All (Within n) out
        go keep none e' ih = absurd (ground arith)
        go keep (some i) e' ih =
            ih i
              (All-append (Within n) (with_hole row.start cursor recs) _
                (hole-Within row.start cursor recs (omega arith) h)
                ((ground arith, known row.cc i e'), tt))
              (ground arith)

  pub close-Within :
      (recs : List Record) (cursor : ℕ)
      → All (Within n) recs
      → All (Within n) (close (recs, cursor))
  unfolding close
  close-Within recs cursor h = elim (Bool-cases (leb cursor last_ip)) [
    | inl room ↦ rw room (All-append (Within n) recs _ h ((ground arith, some_code), tt))
    | inr full ↦ rw full h
  ]

pub compress-All {κ} :
    (P : Record → Type κ) (out recs : List Record)
    → All P out
    → All P recs
    → All P (compress out recs)
unfolding compress
compress-All P out [] ho _ = ho
compress-All P out ((s, i) ∷ recs) ho (h, hs) = elim (Bool-cases (ends_with_index out i)) [
  | inl same ↦ rw same (compress-All P out recs ho hs)
  | inr new ↦ rw new (compress-All P _ recs (All-append P out _ ho (h, tt)) hs)
]
