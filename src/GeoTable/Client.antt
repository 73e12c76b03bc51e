-- ===== src/GeoTable/Client.antt =====
-- app/lib/data/geoip_service.dart: how the client looks an address up in the table that it read.
-- The proofs are in the modules below.
pub mod Search
pub mod Total
pub mod EndToEnd
use weronity_vpn.Prelude.{
  ℕ, zero, suc, ◌+◌, ◌-◌, ◌/◌, String, Bool, true, false, Option, none, some, List, [], ◌∷◌, ltb,
  leb, ◌==◌, length, get_elem?, if◌then◌else◌,
}
use weronity_vpn.GeoTable.{Record}
use weronity_vpn.GeoTable.File.{Service}

-- How a call ends: with a value, with Dart's `RangeError` on a bad index, or with its rounds spent.
pub data Run {ℓ} (A : Type ℓ) : Type ℓ where
  done : A → Run A
  out_of_range spent : Run A

-- The loop `while (lo < hi)`, on a number of rounds.
unfoldable pub search : ℕ → List Record → ℕ → ℕ → ℕ → Run ℕ
unfolding get_elem?
search zero recs ip lo hi = spent
search (suc rounds) recs ip lo hi =
    let mid = (lo + hi + 1) / 2 in
    elim (ltb lo hi) [
      | false ↦ done lo
      | true ↦ elim (get_elem? recs mid) [
        | none ↦ out_of_range
        | some (start, _) ↦ elim (leb start ip) [
          | true ↦ search rounds recs ip mid hi
          | false ↦ search rounds recs ip lo (mid - 1)
        ]
      ]
    ]

-- `code.isEmpty ? null : code`
abbrev pub or_null : String → Option String
or_null code = if code == "" then none else some code

-- `_codes[_codeIndex[lo]]`, and the end of the lookup
unfoldable pub country_at : Service → ℕ → Run (Option String)
unfolding get_elem?
country_at service lo = elim (get_elem? service.records lo) [
  | none ↦ out_of_range
  | some (_, idx) ↦ elim (get_elem? service.codes idx) [
    | none ↦ out_of_range
    | some code ↦ done (or_null code)
  ]
]

-- The loop and what follows it. Every round shortens the range, so as many rounds as there are
-- records are enough.
unfoldable pub searched : Service → ℕ → Run (Option String)
unfolding search country_at
searched service ip =
    elim (search (length service.records) service.records ip 0 (length service.records - 1)) [
      | done lo ↦ country_at service lo
      | out_of_range ↦ out_of_range
      | spent ↦ spent
    ]

-- The two tests before the loop: no record, or an address before the first one's.
abbrev pub guarded : List Record → ℕ → Run (Option String) → Run (Option String)
guarded [] ip later = done none
guarded ((first, _) ∷ _) ip later = if ltb ip first then done none else later

-- `GeoIpService.lookupIp`
unfoldable pub lookup_ip : Service → ℕ → Run (Option String)
unfolding searched
lookup_ip service ip = guarded service.records ip (searched service ip)
