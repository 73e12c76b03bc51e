-- ===== src/GeoTable/File.antt =====
-- app/tool/build_geoip.py and app/lib/data/geoip_service.dart: the file of the table, as it is
-- written and as the client reads it. A byte is a number; what is read is taken off the front of the
-- bytes that are left. The proofs are in the modules below.
pub mod RoundTrip
pub mod Codes
pub mod Within
pub mod Table
use weronity_vpn.Prelude.{
  ℕ, zero, suc, ◌+◌, ◌*◌, ◌/◌, ◌%◌, String, Bool, true, false, List, [], ◌∷◌, ◌++◌, ltb, leb, eqb,
  length, Char, code, map, ◌&&◌, ◌≡◌, refl, if◌then◌else◌,
}
use Prim.Native.Nat.{compare, Ordering}
use Prim.Native.Char.{char, nul}
use weronity_vpn.Prelude.Dict.{Dict}
use weronity_vpn.Prelude.Sort.{sort}
use weronity_vpn.Prelude.Result.{
  Result, ok, err, value_error, struct_error, format_error, range_error, guard, ◌>>=◌, ◌>>◌,
}
use weronity_vpn.GeoTable.{Record}

-- `struct.pack("<H", n)`
unfoldable pub pack_u16 : ℕ → Result (List ℕ)
pack_u16 n = if leb n 0xFFFF then ok (n % 256 ∷ n / 256 ∷ []) else err struct_error

-- `struct.pack("<I", n)`
unfoldable pub pack_u32 : ℕ → Result (List ℕ)
pack_u32 n =
    if leb n 0xFFFFFFFF
    then ok (n % 256 ∷ n / 256 % 256 ∷ n / 65536 % 256 ∷ n / 16777216 ∷ [])
    else err struct_error

-- `.encode("ascii")` of one character
unfoldable pub ascii_byte : Char → Result ℕ
ascii_byte c = if ltb (code c) 128 then ok (code c) else err value_error

-- `(cc.ljust(2, "\0")[:2]).encode("ascii")`
unfoldable pub code_bytes : String → Result (List ℕ)
unfolding ascii_byte
code_bytes String.[] = ok (0 ∷ 0 ∷ [])
code_bytes (String.◌∷◌ a String.[]) = do x ← ascii_byte a; ok (x ∷ 0 ∷ [])
code_bytes (String.◌∷◌ a (String.◌∷◌ b _)) = do x ← ascii_byte a; y ← ascii_byte b; ok (x ∷ y ∷ [])

-- The loop over `codes`.
unfoldable pub write_codes : List String → Result (List ℕ)
unfolding code_bytes
write_codes [] = ok []
write_codes (cc ∷ codes) = do first ← code_bytes cc; rest ← write_codes codes; ok (first ++ rest)

-- `struct.pack("<IH", start, idx)`
unfoldable pub pack_record : Record → Result (List ℕ)
unfolding pack_u32 pack_u16
pack_record (start, idx) = do s ← pack_u32 start; i ← pack_u16 idx; ok (s ++ i)

-- The loop over the records.
unfoldable pub write_records : List Record → Result (List ℕ)
unfolding pack_record
write_records [] = ok []
write_records (r ∷ recs) = do first ← pack_record r; rest ← write_records recs; ok (first ++ rest)

abbrev pub by_number : String × ℕ → String × ℕ → Bool
by_number a b = leb a.1 b.1

-- `sorted(cc_index, key=cc_index.get)`
unfoldable pub codes_of : Dict ℕ → List String
unfolding sort
codes_of index = map (λ entry. entry.0) (sort by_number index)

-- `b"WGI2"`
abbrev pub magic : List ℕ
magic = 0x57 ∷ 0x47 ∷ 0x49 ∷ 0x32 ∷ []

-- The bytes of the file; an exception ends the program, so what is written before it does not count.
unfoldable pub write_table : Dict ℕ → List Record → Result (List ℕ)
unfolding pack_u16 pack_u32 codes_of write_codes write_records
write_table index recs = do
  n_cc ← pack_u16 (length (codes_of index))
  cc_table ← write_codes (codes_of index)
  count ← pack_u32 (length recs)
  records ← write_records recs
  ok (magic ++ (n_cc ++ (cc_table ++ (count ++ records))))

-- `bd.getUint16(off, Endian.little)`, and the bytes after it
unfoldable pub get_u16 : List ℕ → Result (ℕ × List ℕ)
get_u16 (a ∷ b ∷ rest) = ok (a + 256 * b, rest)
get_u16 _ = err range_error

-- `bd.getUint32(off, Endian.little)`, and the bytes after it
unfoldable pub get_u32 : List ℕ → Result (ℕ × List ℕ)
get_u32 (a ∷ b ∷ c ∷ d ∷ rest) = ok (a + 256 * b + 65536 * c + 16777216 * d, rest)
get_u32 _ = err range_error

-- The character with a number that is a byte's.
abbrev pub scalar : (n : ℕ) (o : Ordering) → compare n 55296 ≡ o → Char
scalar n Ordering.lt e = char n (rw e tt)
scalar n _ e = nul

abbrev pub to_char : ℕ → Char
to_char n = scalar n (compare n 55296) refl

-- `(a == 0) ? '' : String.fromCharCodes(<int>[a, b])`
unfoldable pub to_code : ℕ → ℕ → String
to_code a b = if eqb a 0 then "" else String.◌∷◌ (to_char a) (String.◌∷◌ (to_char b) String.[])

-- The loop that reads `codes`.
unfoldable pub read_codes : ℕ → List ℕ → Result (List String × List ℕ)
unfolding to_code
read_codes zero bytes = ok ([], bytes)
read_codes (suc n) (a ∷ b ∷ bytes) = do
  (codes, rest) ← read_codes n bytes
  ok (to_code a b ∷ codes, rest)
read_codes (suc n) _ = err range_error

-- The loop that reads `starts` and `idx`.
unfoldable pub read_records : ℕ → List ℕ → Result (List Record)
unfolding get_u32 get_u16
read_records zero bytes = ok []
read_records (suc n) bytes = do
  (start, bytes') ← get_u32 bytes
  (idx, bytes'') ← get_u16 bytes'
  recs ← read_records n bytes''
  ok ((start, idx) ∷ recs)

-- `GeoIpService`: `records` is its two lists `_starts` and `_codeIndex`, entry by entry.
pub record Service : Type 0 where
  pub records : List Record
  pub codes : List String

unfoldable pub has_magic : List ℕ → Bool
has_magic (w ∷ g ∷ i ∷ v ∷ _) = eqb w 0x57 && eqb g 0x47 && eqb i 0x49 && eqb v 0x32
has_magic _ = false

unfoldable pub drop_bytes : ℕ → List ℕ → List ℕ
drop_bytes (suc n) (b ∷ bytes) = drop_bytes n bytes
drop_bytes _ bytes = bytes

-- `GeoIpService.parseBytes`
unfoldable pub parse_bytes : List ℕ → Result Service
unfolding has_magic drop_bytes get_u16 read_codes get_u32 read_records
parse_bytes bytes = do
  _ ← guard (leb 10 (length bytes) && has_magic bytes) format_error
  (n_cc, after_n) ← get_u16 (drop_bytes 4 bytes)
  (codes, after_codes) ← read_codes n_cc after_n
  (count, rest) ← get_u32 after_codes
  _ ← guard (leb (count * 6) (length rest)) format_error
  recs ← read_records count rest
  ok (record { records = recs; codes = codes })
