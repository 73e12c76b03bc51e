-- ===== src/GeoTable/File/RoundTrip.antt =====
-- What is written is read back: numbers, country codes, records.
use weronity_vpn.Prelude.{
  ℕ, ◌*◌, ◌/◌, ◌%◌, ◌≤◌, ◌<◌, ◌≡◌, refl, String, Bool, true, false, List, [], ◌∷◌, ◌++◌, ltb, leb,
  eqb, length, Char, code, length-append, arith, All,
}
use weronity_vpn.Prelude.Result.{Result, ok}
use weronity_vpn.Prelude.Dict.{Dict}
use weronity_vpn.GeoTable.{Record, is_code, is_ascii_letter}
use weronity_vpn.GeoTable.File.{
  pack_u16, pack_u32, get_u16, get_u32, ascii_byte, code_bytes, write_codes, read_codes,
  pack_record, write_records, read_records, to_code, to_char, scalar, write_table, parse_bytes,
  codes_of, magic, has_magic, drop_bytes,
}
use mathlib.Core.Path.{ap}
use text.Mathlib.TextEquality.{Char-path}
use Prim.Native.Nat.{compare, Ordering}

-- The writer gives bytes that the reader takes off the front again.
abbrev pub Decodes {ℓ} :
    {A : Type ℓ} → Result (List ℕ) → (List ℕ → Result (A × List ℕ)) → A → Type ℓ
Decodes written reader a =
    (bytes : List ℕ) × (written ≡ ok bytes)
    × ((rest : List ℕ) → reader (bytes ++ rest) ≡ ok (a, rest))

pub u16-Decodes : (n : ℕ) → n ≤ 0xFFFF → Decodes (pack_u16 n) get_u16 n
unfolding pack_u16 get_u16
u16-Decodes n h =
    (n % 256 ∷ n / 256 ∷ [], ground arith, λ rest. ap (λ m. ok (m, rest)) (omega arith))

pub u32-Decodes : (n : ℕ) → n ≤ 0xFFFFFFFF → Decodes (pack_u32 n) get_u32 n
unfolding pack_u32 get_u32
u32-Decodes n h = (
  n % 256 ∷ n / 256 % 256 ∷ n / 65536 % 256 ∷ n / 16777216 ∷ [],
  ground arith,
  λ rest. ap (λ m. ok (m, rest)) (omega arith),
)

code-scalar : (n : ℕ) (o : Ordering) (e : compare n 55296 ≡ o) → n < 256 → code (scalar n o e) ≡ n
code-scalar n Ordering.lt e h = refl
code-scalar n Ordering.eq e h = absurd (ground arith)
code-scalar n Ordering.gt e h = absurd (ground arith)

to_char-code : (c : Char) → code c < 256 → to_char (code c) ≡ c
to_char-code c h = Char-path _ c (code-scalar (code c) (compare (code c) 55296) refl h)

-- The empty code, or two ASCII letters.
unfoldable pub fits : String → Bool
unfolding is_code
fits String.[] = true
fits cc = is_code cc

code_bytes-to_code :
    (cc : String)
    → fits cc ≡ true
    → (a : ℕ) × (b : ℕ) × (code_bytes cc ≡ ok (a ∷ b ∷ [])) × (to_code a b ≡ cc)
unfolding fits is_code is_ascii_letter code_bytes ascii_byte to_code
code_bytes-to_code String.[] h = (0, 0, refl, refl)
code_bytes-to_code (String.◌∷◌ a String.[]) h = absurd (ground arith)
code_bytes-to_code (String.◌∷◌ a (String.◌∷◌ b (String.◌∷◌ c s))) h = absurd (ground arith)
code_bytes-to_code (String.◌∷◌ a (String.◌∷◌ b String.[])) h =
    let ha : (code a < 128) × (0 < code a) = ground arith in
    let hb : code b < 128 = ground arith in
    let ea : ltb (code a) 128 ≡ true = ground arith in
    let eb : ltb (code b) 128 ≡ true = ground arith in
    let za : eqb (code a) 0 ≡ false = ground arith in
    (
      code a,
      code b,
      rw (ea, eb) refl,
      rw (za, to_char-code a (omega arith), to_char-code b (omega arith)) refl,
    )

pub codes-Decodes :
    (codes : List String)
    → All (λ cc. fits cc ≡ true) codes
    → Decodes (write_codes codes) (read_codes (length codes)) codes
unfolding write_codes read_codes
codes-Decodes [] _ = ([], refl, λ rest. refl)
codes-Decodes (cc ∷ codes) (h, hs) =
    let (a, b, written, back) = code_bytes-to_code cc h in
    let (bytes, written_rest, back_rest) = codes-Decodes codes hs in
    (a ∷ b ∷ bytes, rw (written, written_rest) refl, λ rest. rw (back_rest rest, back) refl)

-- The numbers of a record fit into the file.
abbrev pub Fits : Record → Type 0
Fits (start, idx) = (start ≤ 0xFFFFFFFF) × (idx ≤ 0xFFFF)

++-assoc : (a b c : List ℕ) → (a ++ b) ++ c ≡ a ++ (b ++ c)
++-assoc [] b c = refl
++-assoc (x ∷ a) b c = λ i. x ∷ ++-assoc a b c i

length-pack_u32 : (n : ℕ) (bytes : List ℕ) → pack_u32 n ≡ ok bytes → length bytes ≡ 4
unfolding pack_u32
length-pack_u32 n bytes h = ground arith

length-pack_u16 : (n : ℕ) (bytes : List ℕ) → pack_u16 n ≡ ok bytes → length bytes ≡ 2
unfolding pack_u16
length-pack_u16 n bytes h = ground arith

-- The records of the file are its end.
pub records-Decodes :
    (recs : List Record)
    → All Fits recs
    → (bytes : List ℕ) × (write_records recs ≡ ok bytes)
      × (read_records (length recs) bytes ≡ ok recs)
      × (length bytes ≡ length recs * 6)
unfolding write_records read_records pack_record
records-Decodes [] _ = ([], refl, refl, refl)
records-Decodes ((start, idx) ∷ recs) ((hs, hi), fits_rest) =
    let (s, ws, rs) = u32-Decodes start hs in
    let (i, wi, ri) = u16-Decodes idx hi in
    let (bytes, w, r, l) = records-Decodes recs fits_rest in
    (
      (s ++ i) ++ bytes,
      rw (ws, wi, w) refl,
      rw (++-assoc s i bytes, rs (i ++ bytes), ri bytes, r) refl,
      omega (
        arith,
        length-append (s ++ i) bytes,
        length-append s i,
        length-pack_u32 start s ws,
        length-pack_u16 idx i wi,
        l,
      ),
    )

-- What fits into a file is written to one, and the client reads it back.
pub write_table-parse_bytes :
    (index : Dict ℕ) (recs : List Record)
    → length (codes_of index) ≤ 0xFFFF
    → All (λ cc. fits cc ≡ true) (codes_of index)
    → length recs ≤ 0xFFFFFFFF
    → All Fits recs
    → (bytes : List ℕ) × (write_table index recs ≡ ok bytes)
      × (parse_bytes bytes ≡ ok (record { records = recs; codes = codes_of index }))
unfolding write_table parse_bytes has_magic drop_bytes
write_table-parse_bytes index recs few codes_fit many recs_fit =
    let codes = codes_of index in
    let (n, wn, rn) = u16-Decodes (length codes) few in
    let (cs, wc, rc) = codes-Decodes codes codes_fit in
    let (m, wm, rm) = u32-Decodes (length recs) many in
    let (rs, wr, rr, lr) = records-Decodes recs recs_fit in
    let room : leb (length recs * 6) (length rs) ≡ true = rw lr (ground arith) in
    let long : leb 10 (length (magic ++ (n ++ (cs ++ (m ++ rs))))) ≡ true = ground (
      arith,
      length-append n (cs ++ (m ++ rs)),
      length-append cs (m ++ rs),
      length-append m rs,
      length-pack_u16 _ n wn,
      length-pack_u32 _ m wm,
    ) in
    (
      magic ++ (n ++ (cs ++ (m ++ rs))),
      rw (wn, wc, wm, wr) refl,
      rw (long, rn (cs ++ (m ++ rs)), rc (m ++ rs), rm rs, room, rr) refl,
    )
