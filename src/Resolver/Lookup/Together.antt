-- ===== src/Resolver/Lookup/Together.antt =====
-- Which fields of an answer come together.
use weronity_vpn.Prelude.{
  ◌≡◌, refl, String, Bool, Option, none, some, Bool-cases, inl, inr, Char, ◌==◌,
}
use weronity_vpn.Prelude.Value.{
  Value, null, bool, int, float, str, obj, arr, Runtime, to_int, or_value,
}
use weronity_vpn.Prelude.Result.{Result, ok, value_error, >>=-eq-ok, ok_inj, or_raise}
use weronity_vpn.Models.{Geo, no_geo}
use weronity_vpn.Resolver.Lookup.{
  CountryRecord, no_country, AsnRecord, no_asn, Database, or_empty, flag_of, is_null, set_country,
  with_country, with_asn, from_database, lookup_geo,
}
use weronity_vpn.Ping.Driver.Consistent.{is_some}

-- A flag comes exactly with a country, a name of the country only with it, and the name of a network
-- only with its number.
pub record IsTogether (geo : Geo) : Type 0 where
  pub flagged : is_some geo.flag ≡ is_some geo.country
  pub named : geo.country ≡ none → geo.country_name ≡ none
  pub numbered : geo.asn ≡ none → geo.as_org ≡ none

no_geo-IsTogether : IsTogether no_geo
no_geo-IsTogether = record { flagged = refl; named = λ h. refl; numbered = λ h. refl }

module _ ⦃py : Runtime⦄ (is_alpha : Char → Bool) where
  set_country-IsTogether :
      (iso : Value) (country_name : Option String) (geo geo' : Geo)
      → IsTogether geo
      → set_country is_alpha iso country_name geo ≡ ok geo'
      → IsTogether geo'
  unfolding set_country
  set_country-IsTogether (str iso) country_name geo geo' t h = elim (Bool-cases (iso == "")) [
    | inl blank ↦ rw (← ok_inj (rw blank at h)) t
    | inr full ↦
        let (flag, _, h') = >>=-eq-ok (flag_of is_alpha iso) _ (rw full at h) in
        rw (← ok_inj h') (record { flagged = refl; named = λ q. cc; numbered = t.numbered })
  ]
  set_country-IsTogether null country_name geo geo' t h = rw (← ok_inj h) t
  set_country-IsTogether (bool b) country_name geo geo' t h = rw (← ok_inj h) t
  set_country-IsTogether (int z) country_name geo geo' t h = rw (← ok_inj h) t
  set_country-IsTogether (float x) country_name geo geo' t h = rw (← ok_inj h) t
  set_country-IsTogether (obj fs) country_name geo geo' t h = rw (← ok_inj h) t
  set_country-IsTogether (arr vs) country_name geo geo' t h = rw (← ok_inj h) t

  with_country-IsTogether :
      (rec : CountryRecord) (geo geo' : Geo)
      → IsTogether geo
      → with_country is_alpha rec geo ≡ ok geo'
      → IsTogether geo'
  unfolding with_country
  with_country-IsTogether rec geo geo' t h =
      set_country-IsTogether
        (or_value (or_value rec.country_code rec.iso_code) rec.registered_iso_code) rec.country_name
        (record geo { city = rec.city_name }) geo'
        (record { flagged = t.flagged; named = t.named; numbered = t.numbered }) h

  with_asn-IsTogether :
      (rec : AsnRecord) (geo geo' : Geo)
      → IsTogether geo
      → with_asn is_alpha rec geo ≡ ok geo'
      → IsTogether geo'
  unfolding with_asn
  with_asn-IsTogether rec geo geo' t h = elim (Bool-cases (is_null rec.autonomous_system_number)) [
    | inl absent ↦ rw (← ok_inj (rw absent at h)) t
    | inr present ↦
        let (asn, _, h') =
          >>=-eq-ok (or_raise value_error (to_int rec.autonomous_system_number)) _
            (rw present at h) in
        rw (← ok_inj h') (record { flagged = t.flagged; named = t.named; numbered = λ q. cc })
  ]

  from_database-IsTogether :
      {A : Type 0} (db : Option (Database A)) (empty : A) (block : A → Geo → Result Geo)
      (ip : String) (geo geo' : Geo)
      → ((rec : A) (g g' : Geo) → IsTogether g → block rec g ≡ ok g' → IsTogether g')
      → IsTogether geo
      → from_database is_alpha db empty block ip geo ≡ ok geo'
      → IsTogether geo'
  from_database-IsTogether none empty block ip geo geo' step t h = rw (← ok_inj h) t
  from_database-IsTogether (some db) empty block ip geo geo' step t h =
      let (found, _, h') = >>=-eq-ok (db ip) _ h in step (or_empty empty found) geo geo' t h'

  -- Whatever the databases have of an address, a flag comes exactly with a country, the name of a
  -- country only with its code, and the organization of a network only with its number.
  pub lookup_geo-IsTogether :
      (countries : Option (Database CountryRecord)) (asns : Option (Database AsnRecord))
      (ip : Option String) (geo : Geo)
      → lookup_geo is_alpha countries asns ip ≡ ok geo
      → IsTogether geo
  unfolding lookup_geo
  lookup_geo-IsTogether countries asns none geo h = rw (← ok_inj h) no_geo-IsTogether
  lookup_geo-IsTogether countries asns (some ip) geo h = elim (Bool-cases (ip == "")) [
    | inl blank ↦ rw (← ok_inj (rw blank at h)) no_geo-IsTogether
    | inr full ↦
        let (placed, e, h') =
          >>=-eq-ok (from_database is_alpha countries no_country (with_country is_alpha) ip no_geo)
            _ (rw full at h) in
        from_database-IsTogether asns no_asn (with_asn is_alpha) ip placed geo with_asn-IsTogether
          (from_database-IsTogether countries no_country (with_country is_alpha) ip no_geo placed
            with_country-IsTogether no_geo-IsTogether e)
          h'
  ]
