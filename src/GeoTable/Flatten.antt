-- ===== src/GeoTable/Flatten.antt =====
-- The flattened records give every address the country of the first row that covers it.
use Prim.Native.Nat.{max}
use weronity_vpn.Prelude.{
  ℕ, ◌+◌, ◌≤◌, ◌≡◌, refl, true, false, Option, none, some, List, [], ◌∷◌, ◌++◌, leb, ltb, arith,
  if◌then◌else◌, All, Bool-cases, inl, inr, ◌∙◌,
}
use weronity_vpn.Prelude.Dict.{Dict, lookup}
use weronity_vpn.GeoTable.{Row, Record, flatten, close, with_hole, last_ip}
use weronity_vpn.GeoTable.Reader.{read_from, read, read_from-append, owner, owner_below, Ordered}

read-append :
    (recs : List Record) (s i ip : ℕ)
    → read (recs ++ (s, i) ∷ []) ip ≡ (if leb s ip then i else read recs ip)
unfolding read_from
read-append recs s i ip = read_from-append 0 recs ((s, i) ∷ []) ip

read-with_hole :
    (start cursor : ℕ) (recs : List Record) (ip : ℕ)
    → read (with_hole start cursor recs) ip
      ≡ (if ltb cursor start then (if leb cursor ip then 0 else read recs ip) else read recs ip)
read-with_hole start cursor recs ip = ground (arith, read-append recs cursor 0 ip)

-- What the records say below the cursor, and what the rows say from it on.
abbrev expected : Dict ℕ → List Row → List Record → ℕ → ℕ → ℕ
expected index rows recs cursor ip = if ltb ip cursor then read recs ip else owner index rows ip

module _ (index : Dict ℕ) (row : Row) (rows : List Row) (recs : List Record) (cursor ip : ℕ) where
  skip-expected :
      row.start ≤ row.end
      → ltb row.end (max row.start cursor) ≡ true
      → expected index rows (with_hole row.start cursor recs) cursor ip
        ≡ expected index (row ∷ rows) recs cursor ip
  unfolding owner
  skip-expected fits skip = ground (arith, read-with_hole row.start cursor recs ip)

  take-expected :
      (i : ℕ)
      → row.start ≤ row.end
      → All (λ later. row.start ≤ later.start) rows
      → ltb row.end (max row.start cursor) ≡ false
      → lookup row.cc index ≡ some i
      → expected index rows
          (with_hole row.start cursor recs ++ (max row.start cursor, i) ∷ [])
          (row.end + 1)
          ip
        ≡ expected index (row ∷ rows) recs cursor ip
  unfolding owner
  take-expected i fits later keep found = ground (
    arith,
    read-append (with_hole row.start cursor recs) (max row.start cursor) i ip,
    read-with_hole row.start cursor recs ip,
    owner_below index rows row.start ip later,
  )

-- The result of the loop agrees with the rows, from any state of the loop.
read-flatten :
    (index : Dict ℕ) (rows : List Row) (recs : List Record) (cursor : ℕ) (out : List Record)
    (end ip : ℕ)
    → Ordered rows
    → flatten index rows recs cursor ≡ some (out, end)
    → expected index [] out end ip ≡ expected index rows recs cursor ip
unfolding flatten
read-flatten index [] recs cursor out end ip _ h = ground arith
read-flatten index (row ∷ rows) recs cursor out end ip (fits, later, ordered) h =
    elim (Bool-cases (ltb row.end (max row.start cursor))) [
      | inl skip ↦
          read-flatten index rows (with_hole row.start cursor recs) cursor out end ip ordered
            (ground arith)
          ∙ skip-expected index row rows recs cursor ip fits skip
      | inr keep ↦ go keep (lookup row.cc index) refl (λ i.
          read-flatten index rows
            (with_hole row.start cursor recs ++ (max row.start cursor, i) ∷ []) (row.end + 1) out
            end ip ordered)
    ]
  where
    go :
        ltb row.end (max row.start cursor) ≡ false
        → (found : Option ℕ) → lookup row.cc index ≡ found
        → ((i : ℕ)
            → flatten index rows
                (with_hole row.start cursor recs ++ (max row.start cursor, i) ∷ [])
                (row.end + 1)
              ≡ some (out, end)
            → expected index [] out end ip
              ≡ expected index rows
                  (with_hole row.start cursor recs ++ (max row.start cursor, i) ∷ [])
                  (row.end + 1)
                  ip)
        → expected index [] out end ip ≡ expected index (row ∷ rows) recs cursor ip
    go keep none e ih = absurd (ground arith)
    go keep (some i) e ih =
        ih i (ground arith) ∙ take-expected index row rows recs cursor ip i fits later keep e

-- The closed table gives every 32-bit address the country of the first row that covers it.
pub read-close-flatten :
    (index : Dict ℕ) (rows : List Row) (done : List Record × ℕ) (ip : ℕ)
    → Ordered rows
    → flatten index rows [] 0 ≡ some done
    → ip ≤ last_ip
    → read (close done) ip ≡ owner index rows ip
unfolding close owner
read-close-flatten index rows (out, end) ip ordered h small =
    ground (arith, read-append out end 0 ip, read-flatten index rows [] 0 out end ip ordered h)
