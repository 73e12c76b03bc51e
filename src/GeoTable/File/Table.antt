-- ===== src/GeoTable/File/Table.antt =====
-- The file of a table that is built is written without an error, and the client reads it back.
use weronity_vpn.Prelude.{
  ℕ, ◌≤◌, ◌<◌, ◌≡◌, refl, String, true, some, List, [], ◌∷◌, length, arith, All, Bool-cases, inl,
  inr, eq_iff,
}
use weronity_vpn.Prelude.Value.{Runtime}
use weronity_vpn.Prelude.Result.{ok}
use weronity_vpn.Prelude.Dict.{Dict, lookup, has, lookup-insert, lookup-has}
use weronity_vpn.Prelude.Sort.{sort, sort-All}
use weronity_vpn.GeoTable.{
  Row, Record, by_start, is_code, checked_row, parse_row, parse_rows, build_table, table, compress,
  close, number_codes, set_default, flatten,
}
use weronity_vpn.GeoTable.Total.{parse_rows-All, build_table_parts}
use weronity_vpn.GeoTable.File.{write_table, parse_bytes}
use weronity_vpn.GeoTable.File.RoundTrip.{fits, Fits, write_table-parse_bytes}
use weronity_vpn.GeoTable.File.Codes.{
  Counts, number_codes-Counts, AllFit, number_codes-AllFit, keys, codes_of-keys, length-keys,
  keys-AllFit, lookup-Counts,
}
use weronity_vpn.GeoTable.File.Within.{IsSmall, Within, flatten-Within, close-Within, compress-All}

-- What the lines are read to.
abbrev pub IsLine : Row → Type 0
IsLine row = IsSmall row × (is_code row.cc ≡ true)

parse_row-IsLine :
    ⦃py : Runtime⦄ (line : String) (row : Row) → parse_row line ≡ some row → IsLine row
unfolding parse_row checked_row
parse_row-IsLine line row h = ground arith

lookup-number_codes :
    (k : String) (i : ℕ) (index : Dict ℕ) (rows : List Row)
    → lookup k index ≡ some i
    → lookup k (number_codes index rows) ≡ some i
unfolding number_codes
lookup-number_codes k i index [] h = h
lookup-number_codes k i index (row ∷ rows) h =
    lookup-number_codes k i (set_default row.cc index) rows (elim (Bool-cases (has row.cc index)) [
      | inl old ↦ rw old h
      | inr new ↦ rw new (
          ground (
            arith,
            lookup-insert k row.cc (length index) index,
            lookup-has row.cc index,
            eq_iff row.cc k,
          ))
    ])

abbrev numbered_codes : List Row → Dict ℕ
numbered_codes rows = number_codes (("", 0) ∷ []) rows

pub sorted_lines-IsLine :
    ⦃py : Runtime⦄ (lines : List String) → All IsLine (sort by_start (parse_rows lines))
sorted_lines-IsLine lines =
    sort-All by_start IsLine (parse_rows lines) (parse_rows-All IsLine parse_row-IsLine lines)

pub numbered-Counts : (rows : List Row) → Counts 0 (numbered_codes rows)
numbered-Counts rows = number_codes-Counts (("", 0) ∷ []) rows (refl, tt)

All-0 : (rows : List Row) → All IsLine rows → All IsSmall rows
All-0 [] _ = tt
All-0 (row ∷ rows) ((small, _), hs) = (small, All-0 rows hs)

pub All-1 : (rows : List Row) → All IsLine rows → All (λ row. is_code row.cc ≡ true) rows
All-1 [] _ = tt
All-1 (row ∷ rows) ((_, code), hs) = (code, All-1 rows hs)

module _ (rows : List Row) (lines : All IsLine rows) where
  pub first_code : lookup "" (numbered_codes rows) ≡ some 0
  first_code = lookup-number_codes "" 0 (("", 0) ∷ []) rows (unfold lookup in refl)

  codes_fit : AllFit (numbered_codes rows)
  codes_fit = number_codes-AllFit (("", 0) ∷ []) rows (All-1 rows lines) (unfold fits in refl, tt)

  written-Within :
      (out : List Record) (end : ℕ)
      → flatten (numbered_codes rows) rows [] 0 ≡ some (out, end)
      → All (Within (length (numbered_codes rows))) (compress [] (close (out, end)))
  written-Within out end e =
      let index = numbered_codes rows in
      let known : (k : String) (i : ℕ) → lookup k index ≡ some i → i < length index =
        λ k i found. omega (arith, (lookup-Counts 0 i k index (numbered-Counts rows) found).1) in
      let some_code : 0 < length index = known "" 0 first_code in
      compress-All (Within (length index)) [] _ tt (
        close-Within _ some_code out end
          (flatten-Within _ some_code index known rows [] 0 out end (All-0 rows lines) tt e))

All-Fits : (n : ℕ) (recs : List Record) → n ≤ 0xFFFF → All (Within n) recs → All Fits recs
All-Fits n [] few _ = tt
All-Fits n (r ∷ recs) few ((small, known), hs) = ((small, omega arith), All-Fits n recs few hs)

module _ ⦃py : Runtime⦄ (lines : List String) (index : Dict ℕ) (recs : List Record) where
  -- The file of a table that is built from the lines of a source, of at most 2 ^ 32 - 1 records, is
  -- written without an error, and the client reads it back: the same records, and the countries'
  -- codes in the order of their numbers.
  pub table_file_round_trip :
      build_table (parse_rows lines) ≡ table index recs
      → length recs ≤ 0xFFFFFFFF
      → (bytes : List ℕ) × (write_table index recs ≡ ok bytes)
        × (parse_bytes bytes ≡ ok (record { records = recs; codes = keys index }))
  table_file_round_trip built many =
      let rows = sort by_start (parse_rows lines) in
      let (out, end, e, same, written, few) =
        build_table_parts (parse_rows lines) index recs built in
      let good = sorted_lines-IsLine lines in
      let order = codes_of-keys index (rw same (numbered-Counts rows)) in
      let fit : AllFit index = rw same (codes_fit rows good) in
      let within : All (Within (length index)) recs =
        rw (written, same) (written-Within rows good out end (rw (← same) e)) in
      let (bytes, w, r) =
        write_table-parse_bytes index recs (rw (order, length-keys index) few)
          (rw order (keys-AllFit index fit)) many (All-Fits (length index) recs few within) in
      (bytes, w, rw (← order) r)
