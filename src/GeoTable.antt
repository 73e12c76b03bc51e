-- ===== src/GeoTable.antt =====
-- app/tool/build_geoip.py: the table of address ranges and countries that the client ships.
-- The proofs are in the modules below.
pub mod Reader
pub mod Flatten
pub mod Compress
pub mod Order
pub mod Invariant
pub mod Numbers
pub mod Total
pub mod File
pub mod Client
use weronity_vpn.Prelude.{
  ℕ, zero, suc, ◌+◌, ◌-◌, ◌*◌, ◌/◌, ◌%◌, ◌^◌, ◌≤◌, ◌<◌, String, Bool, true, false, Option, none,
  some, List, [], ◌∷◌, ◌++◌, ◌&&◌, ◌||◌, not, ◌==◌, ltb, leb, eqb, if◌then◌else◌, length, Char,
  code, map,
}
use Prim.Native.Nat.{max}
use weronity_vpn.Prelude.Int.{ℤ, pos, negsuc}
use weronity_vpn.Prelude.Dict.{Dict, lookup, has, insert}
use weronity_vpn.Prelude.Sort.{sort}
use weronity_vpn.Prelude.Text.{strip, cut}
use weronity_vpn.Prelude.Value.{Runtime, parse_int}

pub record Row : Type 0 where
  pub start : ℕ
  pub end : ℕ
  pub cc : String

-- A record of the table: the first address, and the number of its country.
abbrev pub Record : Type 0
Record = ℕ × ℕ

abbrev pub last_ip : ℕ
last_ip = 0xFFFFFFFF

-- `start > cursor`: an unallocated hole before the row gets a record of its own
abbrev pub with_hole : ℕ → ℕ → List Record → List Record
with_hole start cursor recs = if ltb cursor start then recs ++ (cursor, 0) ∷ [] else recs

-- The loop that flattens the sorted rows, with its locals `recs` and `cursor`. `none` is the
-- `KeyError` of a country with no number.
unfoldable pub flatten : Dict ℕ → List Row → List Record → ℕ → Option (List Record × ℕ)
unfolding lookup
flatten index [] recs cursor = some (recs, cursor)
flatten index (row ∷ rows) recs cursor =
    let recs' = with_hole row.start cursor recs in
    let s = max row.start cursor in
    let skipped = flatten index rows recs' cursor in
    let taken : Option (List Record × ℕ) = elim (lookup row.cc index) [
      | none ↦ none
      | some i ↦ flatten index rows (recs' ++ (s, i) ∷ []) (row.end + 1)
    ] in
    if ltb row.end s then skipped else taken

-- `if cursor <= 0xFFFFFFFF: recs.append((cursor, 0))`
unfoldable pub close : List Record × ℕ → List Record
close (recs, cursor) = if leb cursor last_ip then recs ++ (cursor, 0) ∷ [] else recs

-- `dedup and dedup[-1][1] == idx`
unfoldable pub ends_with_index : List Record → ℕ → Bool
ends_with_index [] i = false
ends_with_index ((s, j) ∷ []) i = eqb j i
ends_with_index (_ ∷ r ∷ rs) i = ends_with_index (r ∷ rs) i

-- The loop that drops a record with the country of the one before it.
unfoldable pub compress : List Record → List Record → List Record
unfolding ends_with_index
compress out [] = out
compress out ((s, i) ∷ recs) =
    compress (if ends_with_index out i then out else out ++ (s, i) ∷ []) recs

-- `cc_index.setdefault(cc, len(cc_index))`
abbrev pub set_default : String → Dict ℕ → Dict ℕ
set_default cc index = if has cc index then index else insert cc (length index) index

-- The numbers of the rows' countries, from `{"": 0}`.
unfoldable pub number_codes : Dict ℕ → List Row → Dict ℕ
unfolding has insert
number_codes index [] = index
number_codes index (row ∷ rows) = number_codes (set_default row.cc index) rows

abbrev pub by_start : Row → Row → Bool
by_start a b = leb a.start b.start

pub data Outcome : Type 0 where
  too_many : Outcome
  key_error : Outcome
  table : Dict ℕ → List Record → Outcome

-- From the parsed rows to the records that are written.
unfoldable pub build_table : List Row → Outcome
unfolding sort number_codes flatten close compress
build_table parsed =
    let rows = sort by_start parsed in
    let index = number_codes (("", 0) ∷ []) rows in
    if ltb 0xFFFF (length index) then too_many else elim (flatten index rows [] 0) [
      | none ↦ key_error
      | some done ↦ table index (compress [] (close done))
    ]

-- `ch.isalpha()` of an ASCII character
unfoldable pub is_ascii_letter : Char → Bool
is_ascii_letter c =
    (leb b'A' (code c) && leb (code c) b'Z') || (leb b'a' (code c) && leb (code c) b'z')

-- `len(cc) == 2 and cc.isascii() and cc.isalpha()`
unfoldable pub is_code : String → Bool
unfolding is_ascii_letter
is_code (String.◌∷◌ a (String.◌∷◌ b String.[])) = is_ascii_letter a && is_ascii_letter b
is_code _ = false

-- The tests on the two numbers of a line: the range is kept if it is one of 32-bit addresses.
unfoldable pub checked_row : ℤ → ℤ → String → Option Row
checked_row (pos start) (pos end) cc =
    if ltb last_ip end || ltb end start
    then none
    else some (record { start = start; end = end; cc = cc })
checked_row _ _ cc = none

-- One line of the CSV; `none` is a line that is skipped.
unfoldable pub parse_row : ⦃py : Runtime⦄ → String → Option Row
unfolding cut strip is_code parse_int checked_row
parse_row ⦃py⦄ line = elim (cut "," line) [
  | none ↦ none
  | some (a, rest) ↦ elim (cut "," rest) [
    | none ↦ none
    | some (b, c) ↦
        let cc = py.upper (strip c) in
        let numbers : Option Row = elim (parse_int (strip a)) [
          | none ↦ none
          | some start ↦ elim (parse_int (strip b)) [
            | none ↦ none
            | some end ↦ checked_row start end cc
          ]
        ] in
        elim (cut "," c) [ some _ ↦ none | none ↦ if is_code cc then numbers else none ]
  ]
]

-- The loop over the lines of the text.
unfoldable pub parse_rows : ⦃py : Runtime⦄ → List String → List Row
unfolding parse_row
parse_rows [] = []
parse_rows (line ∷ lines) =
    let rest = parse_rows lines in elim (parse_row line) [ none ↦ rest | some row ↦ row ∷ rest ]
