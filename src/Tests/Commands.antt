-- ===== src/Tests/Commands.antt =====
-- Examples for the sources, the databases and the commands.
use weronity_vpn.Prelude.{
  ℕ, ◌≡◌, refl, String, Bool, true, false, Option, none, some, List, [], ◌∷◌, ◌==◌, All, map,
  if◌then◌else◌, Char, code, leb, ◌&&◌,
}
use weronity_vpn.Prelude.Dict.{Dict, lookup}
use weronity_vpn.Prelude.Value.{Value, null, str, obj, arr, Fields, end, field, nil, cons}
use weronity_vpn.Prelude.Result.{ok}
use weronity_vpn.Models.{Geo, no_geo}
use weronity_vpn.Harvest.{RawDocument}
use weronity_vpn.Sources.{Http, GitHubRepoSource, fetch}
use weronity_vpn.Sources.Listed.{IsFetched, fetch-IsFetched}
use weronity_vpn.FetchGeoip.{datasets, main}
use weronity_vpn.FetchGeoip.Kept.{or_old, downloaded, all_done, main_lem}
use weronity_vpn.Resolver.Lookup.{CountryRecord, Database, lookup_geo}
use weronity_vpn.Resolver.Lookup.Together.{IsTogether, lookup_geo-IsTogether}
use weronity_vpn.Cli.{count_line, section}
use weronity_vpn.Tests.Setup.{ascii, lower_ascii, upper_ascii, value_or}
use weronity_vpn.Tests.Runs.{libraries}

-- A repository with a list of URIs, a picture and a directory.
abbrev entry : String → String → Fields
entry kind path = field "type" (str kind) (field "path" (str path) end)

abbrev tree : Value
tree = obj (
    field "tree"
      (arr (
        cons (obj (entry "blob" "all/List.TXT"))
          (cons (obj (entry "blob" "base64.png")) (cons (obj (entry "tree" "all")) nil))))
      end)

abbrev pub http : Http
http = record {
  send = λ url headers. some (record {
    is_success = true;
    status = 200;
    text = "trojan://pw@a.example:443\n";
    json = some tree;
  });
  quote = λ s. s;
  large = λ x. false;
}

abbrev source : GitHubRepoSource
source = record { repo = "x/y"; ref = "HEAD"; token = none }

abbrev fetched : List RawDocument
unfolding fetch lower_ascii
fetched = value_or [] (fetch ⦃py = ascii⦄ http libraries source)

fetched_done : fetch ⦃py = ascii⦄ http libraries source ≡ ok fetched
unfolding fetch lower_ascii fetched
fetched_done = refl

one_document : map (λ doc. doc.source_file) fetched ≡ "all/List.TXT" ∷ []
unfolding fetch lower_ascii fetched
one_document = refl

fetch-IsFetched_example : All (IsFetched ⦃py = ascii⦄ http libraries source) fetched
fetch-IsFetched_example = fetch-IsFetched ⦃py = ascii⦄ http libraries source fetched fetched_done

-- The second database cannot be downloaded.
abbrev server : String → Option String
server url =
    if url == "https://cdn.jsdelivr.net/npm/@ip-location-db/asn-mmdb/asn.mmdb"
    then none
    else some "new"

main_lem_example :
    ((main server []).0 ≡ (if all_done server datasets then 0 else 1))
    × ((k : String)
        → lookup k (main server []).1
          ≡ or_old server (downloaded server (lookup k datasets)) (lookup k []))
main_lem_example = main_lem server []

abbrev pub countries : Database CountryRecord
countries ip = ok (
    some (record {
      country_code = null;
      iso_code = str "de";
      registered_iso_code = str "us";
      country_name = some "Germany";
      city_name = none;
    }))

abbrev pub is_letter : Char → Bool
is_letter c = leb b'a' (code c) && leb (code c) b'z'

abbrev place : Geo
unfolding lookup_geo upper_ascii
place = value_or no_geo (lookup_geo ⦃py = ascii⦄ is_letter (some countries) none (some "1.2.3.4"))

place_found : lookup_geo ⦃py = ascii⦄ is_letter (some countries) none (some "1.2.3.4") ≡ ok place
unfolding lookup_geo upper_ascii place
place_found = refl

flag_drawn : (place.country ≡ some "DE") × (place.flag ≡ some "🇩🇪")
unfolding lookup_geo upper_ascii place
flag_drawn = (refl, refl)

lookup_geo-IsTogether_example : IsTogether place
lookup_geo-IsTogether_example =
    lookup_geo-IsTogether ⦃py = ascii⦄ is_letter (some countries) none (some "1.2.3.4") place
      place_found

abbrev table : Dict ℕ
table = ("trojan", 2) ∷ ("vless", 7) ∷ ("ss", 2) ∷ []

-- The most frequent first, and of two that are as frequent the one that is first in the table.
table_printed :
    section "protocol" table
    ≡ "" ∷ "by protocol:" ∷ map count_line (("vless", 7) ∷ ("trojan", 2) ∷ ("ss", 2) ∷ [])
unfolding section
table_printed = refl
