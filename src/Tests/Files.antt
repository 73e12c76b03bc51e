-- ===== src/Tests/Files.antt =====
-- Examples for the file of the table and the client that reads it.
use weronity_vpn.Prelude.{
  ◌⊎◌, ◌≤◌, length, ℕ, ◌≡◌, refl, String, Option, none, some, List, [], ◌∷◌, arith,
}
use weronity_vpn.Prelude.Result.{ok}
use weronity_vpn.Prelude.Sort.{sort}
use weronity_vpn.GeoTable.{Record, by_start, parse_rows}
use weronity_vpn.GeoTable.Reader.{read}
use weronity_vpn.GeoTable.File.{write_table, parse_bytes, Service}
use weronity_vpn.GeoTable.File.Codes.{keys}
use weronity_vpn.GeoTable.File.Table.{table_file_round_trip}
use weronity_vpn.GeoTable.Client.{out_of_range, done, search, lookup_ip}
use weronity_vpn.GeoTable.Client.Search.{search-read}
use weronity_vpn.GeoTable.Client.Total.{lookup_ip_total}
use weronity_vpn.GeoTable.Client.EndToEnd.{client_answers, owner_code}
use weronity_vpn.Prelude.{◌⊎◌, get_elem?}
use weronity_vpn.Tests.Tables.{source_lines, index, records, built}
use weronity_vpn.Tests.Setup.{ascii}

table_file_round_trip_example :
    (bytes : List ℕ) × (write_table index records ≡ ok bytes)
    × (parse_bytes bytes ≡ ok (record { records = records; codes = keys index }))
table_file_round_trip_example =
    table_file_round_trip ⦃py = ascii⦄ source_lines index records built (omega arith)

client_answers_example :
    (bytes : List ℕ) × (service : Service) × (write_table index records ≡ ok bytes)
    × (parse_bytes bytes ≡ ok service)
    × (lookup_ip service 47
        ≡ done (owner_code (sort by_start (parse_rows ⦃py = ascii⦄ source_lines)) 47))
client_answers_example =
    client_answers ⦃py = ascii⦄ source_lines index records 47 built (omega arith) (omega arith)

search-read_example :
    (k : ℕ) × (r : Record) × (search 5 records 47 0 4 ≡ done k)
    × (get_elem? records k ≡ some r)
    × (read records 47 ≡ r.1)
search-read_example =
    search-read records 61 47
      (omega arith, (omega arith, (omega arith, (omega arith, (omega arith, omega arith)))))
      ((0, 0), unfold get_elem? in refl, omega arith)

-- A table that is out of order, with a number that is past its codes.
abbrev shuffled : Service
shuffled = record { records = (40, 0) ∷ (10, 0) ∷ (20, 1) ∷ []; codes = "" ∷ [] }

lookup_ip_total_example :
    ((answer : Option String) × (lookup_ip shuffled 45 ≡ done answer))
    ⊎ ((lookup_ip shuffled 45 ≡ out_of_range)
        × ((k : ℕ) × (r : Record) × (get_elem? shuffled.records k ≡ some r)
            × (length shuffled.codes ≤ r.1)))
lookup_ip_total_example = lookup_ip_total shuffled 45

-- The last code is not there, and some addresses have no answer for it.
past_the_codes : lookup_ip shuffled 45 ≡ out_of_range
unfolding lookup_ip
past_the_codes = refl

-- The client's answers on the table of the source lines.
abbrev client : Service
client = record { records = records; codes = "" ∷ "DE" ∷ "FR" ∷ "US" ∷ [] }

answers :
    (lookup_ip client 15 ≡ done (some "DE"))
    × (lookup_ip client 20 ≡ done none)
    × (lookup_ip client 47 ≡ done (some "FR"))
unfolding lookup_ip
answers = (refl, refl, refl)
