-- ===== src/GeoTable/File/Codes.antt =====
-- The table of country codes: the code with number i is the i-th, and each is empty or two letters.
use weronity_vpn.Prelude.{
  ℕ, zero, suc, ◌+◌, ◌≤◌, ◌<◌, ◌≡◌, refl, String, true, some, List, [], ◌∷◌, ◌++◌, leb, length,
  get_elem?, map, arith, All, All-append, Bool-cases, inl, inr, eq_iff, ◌==◌,
}
use mathlib.Core.Path.{ap}
use weronity_vpn.Prelude.Dict.{Dict, lookup, has, insert-fresh}
use weronity_vpn.Prelude.Sort.{sort, place}
use weronity_vpn.GeoTable.{Row, number_codes, set_default, is_code}
use weronity_vpn.GeoTable.File.{codes_of, by_number}
use weronity_vpn.GeoTable.File.RoundTrip.{fits}

-- The numbers count up from `n`.
abbrev pub Counts : ℕ → Dict ℕ → Type 0
Counts n [] = Unit
Counts n ((k, i) ∷ d) = (i ≡ n) × Counts (n + 1) d

Counts-append :
    (n m : ℕ) (k : String) (d : Dict ℕ)
    → Counts n d
    → m ≡ n + length d
    → Counts n (d ++ (k, m) ∷ [])
Counts-append n m k [] h e = (omega arith, tt)
Counts-append n m k ((j, i) ∷ d) (same, h) e = (same, Counts-append (n + 1) m k d h (omega arith))

pub number_codes-Counts :
    (index : Dict ℕ) (rows : List Row) → Counts 0 index → Counts 0 (number_codes index rows)
unfolding number_codes
number_codes-Counts index [] h = h
number_codes-Counts index (row ∷ rows) h =
    number_codes-Counts (set_default row.cc index) rows (elim (Bool-cases (has row.cc index)) [
      | inl old ↦ rw old h
      | inr new ↦
          rw (new, insert-fresh row.cc (length index) index new)
            (Counts-append 0 (length index) row.cc index h (omega arith))
    ])

-- Every code is empty or two letters.
abbrev pub AllFit : Dict ℕ → Type 0
AllFit = All (λ entry. fits entry.0 ≡ true)

is_code-fits : (cc : String) → is_code cc ≡ true → fits cc ≡ true
unfolding is_code fits
is_code-fits String.[] h = refl
is_code-fits (String.◌∷◌ a s) h = h

pub number_codes-AllFit :
    (index : Dict ℕ) (rows : List Row)
    → All (λ row. is_code row.cc ≡ true) rows
    → AllFit index
    → AllFit (number_codes index rows)
unfolding number_codes
number_codes-AllFit index [] _ h = h
number_codes-AllFit index (row ∷ rows) (code, codes) h =
    number_codes-AllFit (set_default row.cc index) rows codes
      (elim (Bool-cases (has row.cc index)) [
        | inl old ↦ rw old h
        | inr new ↦
            rw (new, insert-fresh row.cc (length index) index new)
              (All-append (λ entry. fits entry.0 ≡ true) index _ h (is_code-fits row.cc code, tt))
      ])

-- The order of the numbers is the order of the entries already.
sort-Counts : (n : ℕ) (d : Dict ℕ) → Counts n d → sort by_number d ≡ d
unfolding sort place
sort-Counts n [] h = refl
sort-Counts n ((k, i) ∷ []) h = refl
sort-Counts n ((k, i) ∷ (j, l) ∷ d) (same, (same', h)) =
    let first : leb i l ≡ true = ground arith in
    rw (sort-Counts (n + 1) ((j, l) ∷ d) (same', h), first) refl

abbrev pub keys : Dict ℕ → List String
keys = map (λ entry. entry.0)

pub codes_of-keys : (index : Dict ℕ) → Counts 0 index → codes_of index ≡ keys index
unfolding codes_of
codes_of-keys index h = rw (sort-Counts 0 index h) refl

pub length-keys : (index : Dict ℕ) → length (keys index) ≡ length index
length-keys [] = refl
length-keys (x ∷ index) = ap suc (length-keys index)

pub keys-AllFit : (index : Dict ℕ) → AllFit index → All (λ cc. fits cc ≡ true) (keys index)
keys-AllFit [] _ = tt
keys-AllFit (x ∷ index) (h, hs) = (h, keys-AllFit index hs)

pub lookup-Counts :
    (n i : ℕ) (k : String) (d : Dict ℕ)
    → Counts n d
    → lookup k d ≡ some i
    → (n ≤ i) × (i < n + length d)
unfolding lookup
lookup-Counts n i k [] h e = absurd (ground arith)
lookup-Counts n i k ((j, l) ∷ d) (same, h) e = elim (Bool-cases (j == k)) [
  | inl hit ↦ let here : l ≡ i = ground arith in (omega arith, omega arith)
  | inr miss ↦
      let (low, high) = lookup-Counts (n + 1) i k d h (ground arith) in (omega arith, omega arith)
]

-- A code stands at its number.
pub get_elem?-keys :
    (n i : ℕ) (k : String) (d : Dict ℕ)
    → Counts n d
    → lookup k d ≡ some (n + i)
    → get_elem? (keys d) i ≡ some k
unfolding get_elem? lookup
get_elem?-keys n i k [] h e = absurd (ground arith)
get_elem?-keys n zero k ((j, l) ∷ d) (same, h) e = elim (Bool-cases (j == k)) [
  | inl hit ↦ ap some ((eq_iff j k).0 hit)
  | inr miss ↦ absurd (omega (arith, (lookup-Counts (n + 1) n k d h (ground arith)).0))
]
get_elem?-keys n (suc i) k ((j, l) ∷ d) (same, h) e = elim (Bool-cases (j == k)) [
  | inl hit ↦ absurd (ground arith)
  | inr miss ↦ get_elem?-keys (n + 1) i k d h (ground arith)
]
