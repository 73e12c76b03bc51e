-- ===== src/GeoTable/Client/Total.antt =====
-- The client's lookup always ends.
use weronity_vpn.Prelude.{
  ℕ, zero, suc, ◌-◌, ◌<◌, ◌≤◌, ◌⊎◌, ◌≡◌, refl, String, false, Option, none, some, List, [], ◌∷◌,
  ltb, length, get_elem?, get_elem?-some, arith, Bool-cases, inl, inr,
}
use weronity_vpn.GeoTable.{Record}
use weronity_vpn.GeoTable.File.{Service}
use weronity_vpn.GeoTable.Client.{
  Run, done, out_of_range, search, country_at, searched, lookup_ip, guarded, or_null,
}
use weronity_vpn.GeoTable.Client.Search.{search_total}

-- The lookup ends with an answer.
abbrev pub Answers : Run (Option String) → Type 0
Answers run = (answer : Option String) × (run ≡ done answer)

-- A record of the table names a code that is not there.
abbrev pub HasBadRecord : Service → Type 0
HasBadRecord service =
    (k : ℕ) × (r : Record) × (get_elem? service.records k ≡ some r) × (length service.codes ≤ r.1)

-- How a lookup in any table ends.
abbrev pub Ends : Service → Run (Option String) → Type 0
Ends service run = Answers run ⊎ ((run ≡ out_of_range) × HasBadRecord service)

pub country_at-done :
    (service : Service) (k : ℕ) (r : Record) (code : String)
    → get_elem? service.records k ≡ some r
    → get_elem? service.codes r.1 ≡ some code
    → country_at service k ≡ done (or_null code)
unfolding country_at
country_at-done service k r code at_r at_code = rw (country_at, at_r, at_code) refl

get_elem?-past : (l : List String) (k : ℕ) → length l ≤ k → get_elem? l k ≡ none
unfolding get_elem?
get_elem?-past [] k h = refl
get_elem?-past (x ∷ l) zero h = absurd (omega arith)
get_elem?-past (x ∷ l) (suc k) h = get_elem?-past l k (omega arith)

country_at_past :
    (service : Service) (k : ℕ) (r : Record)
    → get_elem? service.records k ≡ some r
    → get_elem? service.codes r.1 ≡ none
    → country_at service k ≡ out_of_range
unfolding country_at
country_at_past service k r at_r at_code = rw (country_at, at_r, at_code) refl

pub searched-done :
    (service : Service) (ip k : ℕ) (answer : Option String)
    → search (length service.records) service.records ip 0 (length service.records - 1) ≡ done k
    → country_at service k ≡ done answer
    → searched service ip ≡ done answer
unfolding searched
searched-done service ip k answer run at_k = rw (searched, run) at_k

searched-Ends :
    (service : Service) (ip : ℕ) → 0 < length service.records → Ends service (searched service ip)
unfolding searched
searched-Ends service ip some_record =
    let recs = service.records in
    let (k, run, small) =
      search_total recs ip (length recs) 0 (length recs - 1) (omega arith) (omega arith)
        (omega arith) in
    let (r, at) = get_elem?-some recs k (omega arith) in
    elim (Bool-cases (ltb r.1 (length service.codes))) [
      | inl there ↦
          let (code, at_code) = get_elem?-some service.codes r.1 (ground arith) in
          inl (
            or_null code,
            searched-done service ip k (or_null code) run
                (country_at-done service k r code at at_code),
          )
      | inr missing ↦
          let past : length service.codes ≤ r.1 = ground arith in
          inr (
            rw (searched, run)
                (country_at_past service k r at (get_elem?-past service.codes r.1 past)),
            (k, r, at, past),
          )
    ]

pub guarded-later :
    (recs rest : List Record) (r : Record) (ip : ℕ) (later : Run (Option String))
    → recs ≡ r ∷ rest
    → ltb ip r.0 ≡ false
    → guarded recs ip later ≡ later
guarded-later recs rest r ip later e late = rw (e, late) refl

guarded-Ends :
    (service : Service) (recs : List Record) (ip : ℕ) (later : Run (Option String))
    → (0 < length recs → Ends service later)
    → Ends service (guarded recs ip later)
guarded-Ends service [] ip later h = inl (none, refl)
guarded-Ends service (r ∷ recs) ip later h = elim (Bool-cases (ltb ip r.0)) [
  | inl early ↦ inl (none, rw early refl)
  | inr late ↦ rw late (h (omega arith))
]

-- The client's lookup ends at every address, in any table whatever its records are and their order: with
-- an answer, or with a RangeError, and then a record of the table has a number that is past the codes.
-- The loop never runs out of its rounds, of which there are as many as records, and never reads past
-- the records.
pub lookup_ip_total :
    (service : Service) (ip : ℕ)
    → ((answer : Option String) × (lookup_ip service ip ≡ done answer))
      ⊎ ((lookup_ip service ip ≡ out_of_range)
          × ((k : ℕ) × (r : Record) × (get_elem? service.records k ≡ some r)
              × (length service.codes ≤ r.1)))
unfolding lookup_ip
lookup_ip_total service ip =
    guarded-Ends service service.records ip (searched service ip) (searched-Ends service ip)
