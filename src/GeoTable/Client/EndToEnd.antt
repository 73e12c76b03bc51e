-- ===== src/GeoTable/Client/EndToEnd.antt =====
-- From the lines of the source to the client's answer: the generator writes a file, the client reads
-- it and looks an address up.
use weronity_vpn.Prelude.{
  ℕ, ◌≤◌, ◌≡◌, refl, String, true, false, Option, none, some, List, [], ◌∷◌, length, get_elem?,
  arith, All, Bool-cases, inl, inr, if◌then◌else◌, ◌∙◌, eq_iff, ◌==◌,
}
use mathlib.Core.Path.{ap}
use weronity_vpn.Prelude.Value.{Runtime}
use weronity_vpn.Prelude.Result.{ok}
use weronity_vpn.Prelude.Dict.{Dict, lookup, lookup-ne-none}
use weronity_vpn.Prelude.Sort.{sort}
use weronity_vpn.GeoTable.{Row, Record, last_ip, by_start, is_code, parse_rows, build_table, table}
use weronity_vpn.GeoTable.Reader.{read, owner, covers}
use weronity_vpn.GeoTable.Compress.{Rises, begins_at_zero}
use weronity_vpn.GeoTable.Numbers.{Numbered, number_codes-Numbered}
use weronity_vpn.GeoTable.Total.{build_table_parts, build_table-read, build_table_shape}
use weronity_vpn.GeoTable.File.{write_table, parse_bytes, Service}
use weronity_vpn.GeoTable.File.Codes.{Counts, keys, get_elem?-keys}
use weronity_vpn.GeoTable.Client.{done, lookup_ip, or_null}
use weronity_vpn.GeoTable.Client.Search.{Reached, search-read}
use weronity_vpn.GeoTable.File.Table.{
  sorted_lines-IsLine, numbered-Counts, All-1, first_code, table_file_round_trip,
}
use weronity_vpn.GeoTable.Client.Total.{country_at-done, searched-done, guarded-later}

-- The code of the first row that covers an address.
unfoldable pub owner_code : List Row → ℕ → Option String
owner_code [] ip = none
owner_code (row ∷ rows) ip =
    let rest = owner_code rows ip in if covers ip row then some row.cc else rest

or_null-code : (cc : String) → is_code cc ≡ true → or_null cc ≡ some cc
unfolding is_code
or_null-code cc h = elim (Bool-cases (cc == "")) [
  | inr other ↦ rw other refl
  | inl empty ↦
      let e : cc ≡ "" = (eq_iff cc "").0 empty in
      let bad : is_code cc ≡ false = ap is_code e in absurd (ground arith)
]

-- The code at the number of an address's row is that row's.
code_at_owner :
    (index : Dict ℕ) (rows : List Row) (ip : ℕ)
    → Counts 0 index
    → lookup "" index ≡ some 0
    → Numbered index rows
    → All (λ row. is_code row.cc ≡ true) rows
    → (code : String) × (get_elem? (keys index) (owner index rows ip) ≡ some code)
      × (or_null code ≡ owner_code rows ip)
unfolding owner owner_code
code_at_owner index [] ip counts zero_first _ _ =
    ("", get_elem?-keys 0 0 "" index counts zero_first, refl)
code_at_owner index (row ∷ rows) ip counts zero_first (known, hs) (code, codes) =
    elim (Bool-cases (covers ip row)) [
      | inr other ↦ rw other (code_at_owner index rows ip counts zero_first hs codes)
      | inl hit ↦ rw hit (go (lookup row.cc index) refl)
    ]
  where
    go :
        (found : Option ℕ)
        → lookup row.cc index ≡ found
        → (code : String) × (get_elem? (keys index) (elim found [ none ↦ 0 | some i ↦ i ])
            ≡ some code)
          × (or_null code ≡ some row.cc)
    go none e = absurd (lookup-ne-none row.cc index known e)
    go (some i) e = (
      row.cc,
      get_elem?-keys 0 i row.cc index counts (e ∙ ap some (omega arith)),
      or_null-code row.cc code,
    )

module _ ⦃py : Runtime⦄ (lines : List String) (index : Dict ℕ) (recs : List Record) where
  lookup_ip-code :
      (first : Record) (more : List Record) (end ip : ℕ) (codes : List String) (code : String)
      → recs ≡ first ∷ more
      → first.0 ≡ 0
      → Rises 0 recs end
      → get_elem? codes (read recs ip) ≡ some code
      → lookup_ip (record { records = recs; codes = codes }) ip ≡ done (or_null code)
  unfolding lookup_ip get_elem?
  lookup_ip-code first more end ip codes code e zero_first rises at_code =
      let reached : Reached recs ip 0 = (first, rw e refl, omega arith) in
      let (k, r, run, at, found) = search-read recs end ip rises reached in
      guarded-later recs more first ip _ e (ground arith)
      ∙ searched-done (record { records = recs; codes = codes }) ip k (or_null code) run
          (country_at-done (record { records = recs; codes = codes }) k r code at
            (rw (← found) at_code))

  begins :
      (l : List Record)
      → begins_at_zero l ≡ true
      → (first : Record) × (more : List Record) × (l ≡ first ∷ more) × (first.0 ≡ 0)
  unfolding begins_at_zero
  begins [] h = absurd (ground arith)
  begins (x ∷ l) h = (x, l, refl, ground arith)

  -- A client that has the file of a table built from the lines of a source, of at most 2 ^ 32 - 1
  -- records, answers at every 32-bit address with the code of the first row, in the order of first
  -- addresses, that covers it, and with null where no row does.
  pub client_answers :
      (ip : ℕ)
      → build_table (parse_rows lines) ≡ table index recs
      → length recs ≤ 0xFFFFFFFF
      → ip ≤ last_ip
      → (bytes : List ℕ) × (service : Service) × (write_table index recs ≡ ok bytes)
        × (parse_bytes bytes ≡ ok service)
        × (lookup_ip service ip ≡ done (owner_code (sort by_start (parse_rows lines)) ip))
  client_answers ip built many small =
      let rows = sort by_start (parse_rows lines) in
      let (out, end, e, same, written, few) =
        build_table_parts (parse_rows lines) index recs built in
      let good = sorted_lines-IsLine lines in
      let (zero_first, (hi, rises), _) = build_table_shape lines index recs built in
      let (first, more, shape, at_zero) = begins recs zero_first in
      let (bytes, w, r) = table_file_round_trip lines index recs built many in
      let (code, at_code, answer) =
        code_at_owner index rows ip (rw same (numbered-Counts rows))
          (rw same (first_code rows good)) (rw same (number_codes-Numbered (("", 0) ∷ []) rows))
          (All-1 rows good) in
      (
        bytes,
        record { records = recs; codes = keys index },
        w,
        r,
        lookup_ip-code first more hi ip (keys index) code shape at_zero rises
              (rw (build_table-read lines index recs ip built small) at_code)
            ∙ ap done answer,
      )
