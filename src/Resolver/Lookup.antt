-- ===== src/Resolver/Lookup.antt =====
-- pipeline/geoip.py: the databases and `lookup`. What a database has of an address is a parameter, in
-- either of its layouts; a part that a record does not have is null. The proofs are in the module below.
pub mod Together
use Prim.Native.Nat.{compare, Ordering}
use Prim.Native.Char.{char}
use weronity_vpn.Prelude.{
  ℕ, ◌+◌, ◌-◌, ◌≡◌, refl, String, Bool, true, false, Option, none, some, List, [], ◌∷◌, ◌&&◌, ◌==◌,
  if◌then◌else◌, Char, code, first_where,
}
use weronity_vpn.Prelude.Value.{
  Value, null, bool, int, float, str, obj, arr, Runtime, to_int, or_value,
}
use weronity_vpn.Prelude.Result.{Result, ok, err, type_error, value_error, ◌>>=◌, or_raise}
use weronity_vpn.Models.{Geo, no_geo}

abbrev pub country_files : List String
country_files = "dbip-country-lite.mmdb" ∷ "GeoLite2-Country.mmdb" ∷ "dbip-city-lite.mmdb" ∷ []

abbrev pub asn_files : List String
asn_files = "dbip-asn-lite.mmdb" ∷ "GeoLite2-ASN.mmdb" ∷ []

-- `_open`: the name of the file that is opened
unfoldable pub open_database : (String → Bool) → List String → Option String
unfolding first_where
open_database is_file names = first_where is_file names

-- What the code reads of a record: `country_code`, `country.iso_code`, `registered_country.iso_code`, and
-- the English names of the country and of the city.
pub record CountryRecord : Type 0 where
  pub country_code : Value
  pub iso_code : Value
  pub registered_iso_code : Value
  pub country_name : Option String
  pub city_name : Option String

-- The empty dict that stands for no record.
abbrev pub no_country : CountryRecord
no_country = record {
  country_code = null;
  iso_code = null;
  registered_iso_code = null;
  country_name = none;
  city_name = none;
}

pub record AsnRecord : Type 0 where
  pub autonomous_system_number : Value
  pub autonomous_system_organization : Option String

abbrev pub no_asn : AsnRecord
no_asn = record { autonomous_system_number = null; autonomous_system_organization = none }

-- `get` of a database: a record, none, or the `ValueError` of an address that it cannot look up.
abbrev pub Database : Type 0 → Type 0
Database A = String → Result (Option A)

-- `rec or {}`
abbrev pub or_empty : {A : Type 0} → A → Option A → A
or_empty empty none = empty
or_empty empty (some found) = found

chr_by :
    (n : ℕ) (a b c : Ordering)
    → compare n 55296 ≡ a
    → compare 57343 n ≡ b
    → compare n 1114112 ≡ c
    → Result Char
chr_by n Ordering.lt b c ea eb ec = ok (char n (rw ea tt))
chr_by n Ordering.gt Ordering.lt Ordering.lt ea eb ec = ok (char n (rw (ea, eb, ec) tt))
chr_by n _ _ _ ea eb ec = err value_error

-- `chr(n)` of a number that is no surrogate
unfoldable pub chr : ℕ → Result Char
unfolding chr_by
chr n = chr_by n (compare n 55296) (compare 57343 n) (compare n 1114112) refl refl refl

-- `chr(0x1F1E6 + ord(c) - 65)` of a text that has to be one character
unfoldable pub regional : String → Result Char
unfolding chr
regional (String.◌∷◌ c String.[]) = chr (0x1F1E6 + code c - 65)
regional _ = err type_error

abbrev pub is_null : Value → Bool
is_null null = true
is_null _ = false

module _ ⦃py : Runtime⦄ (is_alpha : Char → Bool) where
  -- `_flag`
  unfoldable pub flag_of : String → Result String
  unfolding regional
  flag_of (String.◌∷◌ a (String.◌∷◌ b String.[])) =
      let drawn : Result String = regional (py.upper (String.◌∷◌ a String.[])) >>= λ x.
      regional (py.upper (String.◌∷◌ b String.[])) >>= λ y.
      ok (String.◌∷◌ x (String.◌∷◌ y String.[])) in
      if is_alpha a && is_alpha b then drawn else ok ""
  flag_of _ = ok ""

  -- `isinstance(iso, str) and iso`: the country, its flag and its name are set.
  unfoldable pub set_country : Value → Option String → Geo → Result Geo
  unfolding flag_of
  set_country (str iso) country_name geo =
      let found : Result Geo = flag_of iso >>= λ flag. ok (record geo {
        country = some (py.upper iso);
        flag = some flag;
        country_name = country_name;
      }) in
      if iso == "" then ok geo else found
  set_country _ country_name geo = ok geo

  -- The country's block of `lookup`.
  unfoldable pub with_country : CountryRecord → Geo → Result Geo
  unfolding or_value set_country
  with_country rec geo =
      set_country (or_value (or_value rec.country_code rec.iso_code) rec.registered_iso_code)
        rec.country_name (record geo { city = rec.city_name })

  -- The network's block of `lookup`.
  unfoldable pub with_asn : AsnRecord → Geo → Result Geo
  unfolding to_int
  with_asn rec geo =
      let found : Result Geo = or_raise value_error (to_int rec.autonomous_system_number) >>= λ asn.
      ok (record geo { asn = some asn; as_org = rec.autonomous_system_organization }) in
      if is_null rec.autonomous_system_number then ok geo else found

  -- A block runs if its database is there.
  abbrev pub from_database :
      {A : Type 0} → Option (Database A) → A → (A → Geo → Result Geo) → String → Geo → Result Geo
  from_database none empty block ip geo = ok geo
  from_database (some db) empty block ip geo = db ip >>= λ found. block (or_empty empty found) geo

  -- `lookup`, for the address that `resolve_ip` gives
  unfoldable pub lookup_geo :
      Option (Database CountryRecord) → Option (Database AsnRecord) → Option String → Result Geo
  unfolding with_country with_asn
  lookup_geo countries asns none = ok no_geo
  lookup_geo countries asns (some ip) =
      if ip == ""
      then ok no_geo
      else from_database countries no_country with_country ip no_geo >>= λ geo.
          from_database asns no_asn with_asn ip geo
