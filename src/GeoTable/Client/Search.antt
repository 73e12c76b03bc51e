-- ===== src/GeoTable/Client/Search.antt =====
-- The search by halves ends, never leaves the table, and finds the record that reading the table
-- from its start would find.
use weronity_vpn.Prelude.{
  ℕ, zero, suc, ◌+◌, ◌-◌, ◌/◌, ◌≤◌, ◌<◌, ◌≡◌, refl, true, false, some, List, [], ◌∷◌, ltb, leb,
  length, get_elem?, get_elem?-some, get_elem?-bound, arith, Bool-cases, inl, inr, if◌then◌else◌,
  ◌∙◌,
}
use weronity_vpn.GeoTable.{Record}
use weronity_vpn.GeoTable.Reader.{read, read_from}
use weronity_vpn.GeoTable.Compress.{Rises}
use weronity_vpn.GeoTable.Client.{done, search}

Rises-bound :
    (lo hi i : ℕ) (recs : List Record) (r : Record)
    → Rises lo recs hi
    → get_elem? recs i ≡ some r
    → lo ≤ r.0
unfolding get_elem?
Rises-bound lo hi i [] r h e = absurd (ground arith)
Rises-bound lo hi zero (x ∷ recs) r (le, h) e = ground arith
Rises-bound lo hi (suc i) (x ∷ recs) r (le, h) e =
    omega (arith, Rises-bound (x.0 + 1) hi i recs r h e)

Rises-lt :
    (lo hi i j : ℕ) (recs : List Record) (r s : Record)
    → Rises lo recs hi
    → i < j
    → get_elem? recs i ≡ some r
    → get_elem? recs j ≡ some s
    → r.0 < s.0
unfolding get_elem?
Rises-lt lo hi i j [] r s h lt er es = absurd (ground arith)
Rises-lt lo hi i zero (x ∷ recs) r s h lt er es = absurd (omega arith)
Rises-lt lo hi zero (suc j) (x ∷ recs) r s (le, h) lt er es =
    ground (arith, Rises-bound (x.0 + 1) hi j recs s h es)
Rises-lt lo hi (suc i) (suc j) (x ∷ recs) r s (le, h) lt er es =
    Rises-lt (x.0 + 1) hi i j recs r s h (omega arith) er es

module _ (recs : List Record) (ip : ℕ) where
  -- The record at an index starts at the address or before it.
  abbrev pub Reached : ℕ → Type 0
  Reached k = (r : Record) × (get_elem? recs k ≡ some r) × (r.0 ≤ ip)

  -- The records past an index start after the address.
  abbrev pub Beyond : ℕ → Type 0
  Beyond k = (m : ℕ) (r : Record) → k < m → get_elem? recs m ≡ some r → ip < r.0

  round :
      (rounds lo hi : ℕ) (r : Record)
      → ltb lo hi ≡ true
      → get_elem? recs ((lo + hi + 1) / 2) ≡ some r
      → search (suc rounds) recs ip lo hi ≡ elim (leb r.0 ip) [
        | true ↦ search rounds recs ip ((lo + hi + 1) / 2) hi
        | false ↦ search rounds recs ip lo ((lo + hi + 1) / 2 - 1)
      ]
  unfolding search
  round rounds lo hi r go at = rw (go, search, at) refl

  past_middle :
      (lo hi end : ℕ) (r : Record)
      → Rises 0 recs end
      → get_elem? recs ((lo + hi + 1) / 2) ≡ some r
      → ip < r.0
      → Beyond ((lo + hi + 1) / 2 - 1)
  past_middle lo hi end r rises at high m x past at_m =
      elim (Bool-cases (ltb ((lo + hi + 1) / 2) m)) [
        | inl more ↦
            omega
              (arith, Rises-lt 0 end ((lo + hi + 1) / 2) m recs r x rises (ground arith) at at_m)
        | inr last ↦
            let same : m ≡ (lo + hi + 1) / 2 = ground arith in
            let here : some x ≡ some r = rw (← at, ← at_m, same) refl in
            let e : x ≡ r = ground arith in rw e high
      ]

  -- The loop's range always holds the last record that starts at the address or before it.
  pub search_finds :
      (rounds lo hi end : ℕ)
      → Rises 0 recs end
      → hi - lo < rounds
      → lo ≤ hi
      → hi < length recs
      → Reached lo
      → Beyond hi
      → (k : ℕ) × (search rounds recs ip lo hi ≡ done k) × Reached k × Beyond k
  unfolding search
  search_finds zero lo hi end rises enough le inside low high = absurd (omega arith)
  search_finds (suc rounds) lo hi end rises enough le inside low high =
      elim (Bool-cases (ltb lo hi)) [
        | inr stop ↦
            let same : lo ≡ hi = ground arith in (lo, rw (stop, search) refl, low, rw same high)
        | inl go ↦
            let lt : lo < hi = ground arith in
            let (r, at) = get_elem?-some recs ((lo + hi + 1) / 2) (omega arith) in
            elim (Bool-cases (leb r.0 ip)) [
              | inl low' ↦
                  let (k, run, reached, beyond) =
                    search_finds rounds ((lo + hi + 1) / 2) hi end rises (omega arith) (omega arith)
                      inside (r, at, ground arith) high in
                  (k, round rounds lo hi r go at ∙ rw low' run, reached, beyond)
              | inr high' ↦
                  let (k, run, reached, beyond) =
                    search_finds rounds lo ((lo + hi + 1) / 2 - 1) end rises (omega arith)
                      (omega arith) (omega arith) low
                      (past_middle lo hi end r rises at (ground arith)) in
                  (k, round rounds lo hi r go at ∙ rw high' run, reached, beyond)
            ]
      ]

read_past :
    (i ip : ℕ) (recs : List Record)
    → ((m : ℕ) (r : Record) → get_elem? recs m ≡ some r → ip < r.0)
    → read_from i recs ip ≡ i
unfolding read_from get_elem?
read_past i ip [] h = refl
read_past i ip ((s, j) ∷ recs) h =
    let later : leb s ip ≡ false = ground (arith, h 0 (s, j) refl) in
    rw later (read_past i ip recs (λ m r. h (suc m) r))

-- The country of the last record that starts at the address or before it is what the table says.
pub read_at :
    (i k ip : ℕ) (recs : List Record) (s j : ℕ)
    → get_elem? recs k ≡ some (s, j)
    → s ≤ ip
    → Beyond recs ip k
    → read_from i recs ip ≡ j
unfolding read_from get_elem?
read_at i k ip [] s j at le h = absurd (ground arith)
read_at i zero ip ((t, l) ∷ recs) s j at le h =
    let here : leb t ip ≡ true = ground arith in
    let same : l ≡ j = ground arith in
    rw (here, same) (read_past j ip recs (λ m r. h (suc m) r (omega arith)))
read_at i (suc k) ip ((t, l) ∷ recs) s j at le h =
    read_at (if leb t ip then l else i) k ip recs s j at le (λ m r lt. h (suc m) r (omega arith))

-- In a table whose first addresses rise, at an address that is not before the first record's, the
-- search ends at a record, and its country number is what reading the table from its start gives.
pub search-read :
    (recs : List Record) (end ip : ℕ)
    → Rises 0 recs end
    → Reached recs ip 0
    → (k : ℕ) × (r : Record) × (search (length recs) recs ip 0 (length recs - 1) ≡ done k)
      × (get_elem? recs k ≡ some r)
      × (read recs ip ≡ r.1)
unfolding get_elem?
search-read [] end ip rises (first, at, low) = absurd (ground arith)
search-read (x ∷ recs) end ip rises first =
    let (k, run, (r, at, low), beyond) =
      search_finds (x ∷ recs) ip (length (x ∷ recs)) 0 (length (x ∷ recs) - 1) end rises
        (omega arith) (omega arith) (omega arith) first (past_last (x ∷ recs)) in
    (k, r, run, at, read_at 0 k ip (x ∷ recs) r.0 r.1 at low beyond)
  where
    past_last :
        (l : List Record) (m : ℕ) (r : Record)
        → length l - 1 < m
        → get_elem? l m ≡ some r
        → ip < r.0
    past_last l m r lt at = absurd (omega (arith, get_elem?-bound l m r at))

-- In any table, in order or not, the loop ends in the rounds it has, at an index of its range.
pub search_total :
    (recs : List Record) (ip rounds lo hi : ℕ)
    → hi - lo < rounds
    → lo ≤ hi
    → hi < length recs
    → (k : ℕ) × (search rounds recs ip lo hi ≡ done k) × (k ≤ hi)
search_total recs ip zero lo hi enough le inside = absurd (omega arith)
search_total recs ip (suc rounds) lo hi enough le inside = elim (Bool-cases (ltb lo hi)) [
  | inr stop ↦ (lo, unfold search in rw (stop, search) refl, le)
  | inl go ↦
      let lt : lo < hi = ground arith in
      let (r, at) = get_elem?-some recs ((lo + hi + 1) / 2) (omega arith) in
      elim (Bool-cases (leb r.0 ip)) [
        | inl low ↦
            let (k, run, small) =
              search_total recs ip rounds ((lo + hi + 1) / 2) hi (omega arith) (omega arith)
                inside in
            (k, round recs ip rounds lo hi r go at ∙ rw low run, small)
        | inr high ↦
            let (k, run, small) =
              search_total recs ip rounds lo ((lo + hi + 1) / 2 - 1) (omega arith) (omega arith)
                (omega arith) in
            (k, round recs ip rounds lo hi r go at ∙ rw high run, omega arith)
      ]
]
