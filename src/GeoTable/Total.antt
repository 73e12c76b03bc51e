-- ===== src/GeoTable/Total.antt =====
-- From the rows to the table: what the written table says of every address.
use weronity_vpn.Prelude.{
  ℕ, String, ◌+◌, ◌≤◌, ◌≡◌, ◌≢◌, refl, true, false, Option, none, some, List, [], ◌∷◌, arith, All,
  Bool-cases, inl, inr, ltb, length, ◌∙◌,
}
use weronity_vpn.Prelude.Value.{Runtime}
use weronity_vpn.Prelude.Dict.{Dict}
use weronity_vpn.Prelude.Sort.{sort}
use weronity_vpn.GeoTable.{
  Row, Record, flatten, close, last_ip, number_codes, by_start, build_table, compress, table,
  key_error, checked_row, parse_row, parse_rows,
}
use weronity_vpn.GeoTable.Reader.{read, read_from, owner, Ordered}
use weronity_vpn.GeoTable.Flatten.{read-close-flatten}
use weronity_vpn.GeoTable.Compress.{
  Rises, read-compress, compress-Rises, repeats, repeats-compress, begins_at_zero,
  begins_at_zero-compress,
}
use weronity_vpn.GeoTable.Order.{IsRange, sort-Ordered}
use weronity_vpn.GeoTable.Invariant.{flatten-IsTable, close-IsTable}
use weronity_vpn.GeoTable.Numbers.{number_codes-Numbered, flatten-ne-none}

-- What a table says of the rows in their order.
abbrev Serves : List Row → Dict ℕ → List Record → Type 0
Serves rows index recs =
    (begins_at_zero recs ≡ true)
    × ((hi : ℕ) × Rises 0 recs hi)
    × (repeats recs ≡ false)
    × ((ip : ℕ) → ip ≤ last_ip → read recs ip ≡ owner index rows ip)

compressed-Serves :
    (rows : List Row) (index : Dict ℕ) (out : List Record) (end : ℕ)
    → Ordered rows
    → flatten index rows [] 0 ≡ some (out, end)
    → Serves rows index (compress [] (close (out, end)))
unfolding repeats read_from owner
compressed-Serves rows index out end ordered h =
    let (rises, begins) = close-IsTable out end (flatten-IsTable index rows out end ordered h) in
    (
      begins_at_zero-compress _ begins,
      (end + 1, compress-Rises [] _ 0 0 (end + 1) (omega arith) rises),
      repeats-compress [] _ refl,
      λ ip small.
          read-compress [] _ 0 0 (end + 1) ip (omega arith) rises
          ∙ read-close-flatten index rows (out, end) ip ordered h small,
    )

abbrev numbers_of : List Row → Dict ℕ
numbers_of parsed = number_codes (("", 0) ∷ []) (sort by_start parsed)

flattened_parts :
    (index index' : Dict ℕ) (recs : List Record) (found : Option (List Record × ℕ))
    → elim found [ none ↦ key_error | some done ↦ table index (compress [] (close done)) ]
      ≡ table index' recs
    → (out : List Record) × (end : ℕ) × (found ≡ some (out, end))
      × (index' ≡ index)
      × (recs ≡ compress [] (close (out, end)))
flattened_parts index index' recs none h = cc
flattened_parts index index' recs (some (out, end)) h = (out, end, refl, cc, cc)

-- A table comes from a loop that ended, and its codes are few.
pub build_table_parts :
    (parsed : List Row) (index : Dict ℕ) (recs : List Record)
    → build_table parsed ≡ table index recs
    → (out : List Record) × (end : ℕ) × (flatten index (sort by_start parsed) [] 0
        ≡ some (out, end))
      × (index ≡ number_codes (("", 0) ∷ []) (sort by_start parsed))
      × (recs ≡ compress [] (close (out, end)))
      × (length index ≤ 0xFFFF)
unfolding build_table
build_table_parts parsed index recs h =
    elim (Bool-cases (ltb 0xFFFF (length (numbers_of parsed)))) [
      | inl many ↦ absurd (ground arith)
      | inr few ↦
          let (out, end, e, same, written) =
            flattened_parts (numbers_of parsed) index recs
              (flatten (numbers_of parsed) (sort by_start parsed) [] 0) (ground arith) in
          (out, end, rw same e, same, written, rw same (ground arith))
    ]

build_table-Serves :
    (parsed : List Row) (index : Dict ℕ) (recs : List Record)
    → All IsRange parsed
    → build_table parsed ≡ table index recs
    → Serves (sort by_start parsed) index recs
build_table-Serves parsed index recs ranges h =
    let (out, end, e, same, written, few) = build_table_parts parsed index recs h in
    rw written
      (compressed-Serves (sort by_start parsed) index out end (sort-Ordered parsed ranges) e)

module _ ⦃py : Runtime⦄ where
  parse_row-IsRange : (line : String) (row : Row) → parse_row line ≡ some row → IsRange row
  unfolding parse_row checked_row
  parse_row-IsRange line row h = ground arith

  module _ (P : Row → Type 0)
      (each : (line : String) (row : Row) → parse_row line ≡ some row → P row) where
    with_row :
        (line : String) (found : Option Row) (rest : List Row)
        → parse_row line ≡ found
        → All P rest
        → All P (elim found [ none ↦ rest | some row ↦ row ∷ rest ])
    with_row line none rest e h = h
    with_row line (some row) rest e h = (each line row e, h)

    -- What every line gives, all the rows have.
    pub parse_rows-All : (lines : List String) → All P (parse_rows lines)
    unfolding parse_rows
    parse_rows-All [] = tt
    parse_rows-All (line ∷ lines) = with_row line (parse_row line) _ refl (parse_rows-All lines)

  parse_rows-IsRange : (lines : List String) → All IsRange (parse_rows lines)
  parse_rows-IsRange = parse_rows-All IsRange parse_row-IsRange

  -- A table that is built from the lines of a source gives every 32-bit address the number of the
  -- country of the first row, in the order of first addresses, that covers it, and 0 where no row
  -- does. Rows that start together keep the order of the source.
  pub build_table-read :
      (lines : List String) (index : Dict ℕ) (recs : List Record) (ip : ℕ)
      → build_table (parse_rows lines) ≡ table index recs
      → ip ≤ last_ip
      → read recs ip ≡ owner index (sort by_start (parse_rows lines)) ip
  build_table-read lines index recs ip h small =
      (build_table-Serves (parse_rows lines) index recs (parse_rows-IsRange lines) h).3 ip small

  -- A table that is built from the lines of a source begins with a record for address 0, its first
  -- addresses rise, and no record has the country of the one before it.
  pub build_table_shape :
      (lines : List String) (index : Dict ℕ) (recs : List Record)
      → build_table (parse_rows lines) ≡ table index recs
      → (begins_at_zero recs ≡ true) × ((hi : ℕ) × Rises 0 recs hi) × (repeats recs ≡ false)
  build_table_shape lines index recs h =
      let (zero_first, rises, distinct, _) =
        build_table-Serves (parse_rows lines) index recs (parse_rows-IsRange lines) h in
      (zero_first, rises, distinct)

-- The country of a row always has a number, so no lookup in the loop fails.
pub build_table-ne-key_error : (parsed : List Row) → build_table parsed ≢ key_error
unfolding build_table
build_table-ne-key_error parsed = ground (
  arith,
  flatten-ne-none _ (sort by_start parsed) [] 0
      (number_codes-Numbered (("", 0) ∷ []) (sort by_start parsed)),
)
