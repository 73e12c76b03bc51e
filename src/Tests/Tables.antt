-- ===== src/Tests/Tables.antt =====
-- Examples for the tables of countries, the deduplication, the resolver and the lifetimes.
use weronity_vpn.Prelude.{
  ℕ, ◌+◌, ◌≤◌, ◌≢◌, ◌==◌, String, ◌≡◌, refl, true, false, none, some, List, [], ◌∷◌, arith, length,
  count, first_where, if◌then◌else◌, Bool-cases, inl, inr,
}
use weronity_vpn.Prelude.Int.{pos}
use weronity_vpn.Prelude.Dict.{Dict, lookup, has}
use weronity_vpn.Prelude.Sort.{sort}
use weronity_vpn.Prelude.Value.{str}
use weronity_vpn.Models.{ParsedNode, stable_id, Lifetime, trojan, tcp}
use weronity_vpn.GeoTable.{Record, by_start, build_table, table, key_error, parse_rows}
use weronity_vpn.GeoTable.Reader.{read, owner}
use weronity_vpn.GeoTable.Compress.{Rises, repeats, begins_at_zero}
use weronity_vpn.GeoTable.Total.{build_table-read, build_table_shape, build_table-ne-key_error}
use weronity_vpn.Dedup.{dedup}
use weronity_vpn.Dedup.First.{has_key, dedup_keeps_first}
use weronity_vpn.Dedup.Totals.{sum_values, dedup_totals}
use weronity_vpn.Resolver.Memory.{resolve_ip_stable}
use weronity_vpn.Lifetime.{SeenState, first_entry, stamp, observe, lifetime_for}
use weronity_vpn.Lifetime.Observe.{IsIdSet, IsGood}
use weronity_vpn.Lifetime.File.Timeline.{Timeline, Shows, run_timeline, sighted, sighting_of}
use weronity_vpn.Lifetime.File.Timeline.Refines.{observe-Shows}
use weronity_vpn.Lifetime.File.Timeline.Derived.{Describes, lifetime_for-observe}
use weronity_vpn.Prelude.Text.{one_of}
use weronity_vpn.Prelude.Result.{ok}
use weronity_vpn.Resolver.{resolve_ip, resolve_all}
use weronity_vpn.Tests.Setup.{
  ascii, marks, marks_of, lower_ascii, upper_ascii, calendar, calendar-IsLawful,
  calendar-IsRounding,
}

-- Two ranges with a hole between them, the second one inside of a third.
abbrev pub source_lines : List String
source_lines = "10,19,de" ∷ "40,59,FR" ∷ "45,49,us" ∷ "bad" ∷ []

abbrev pub index : Dict ℕ
index = ("", 0) ∷ ("DE", 1) ∷ ("FR", 2) ∷ ("US", 3) ∷ []

abbrev pub records : List Record
records = (0, 0) ∷ (10, 1) ∷ (20, 0) ∷ (40, 2) ∷ (60, 0) ∷ []

pub built : build_table (parse_rows ⦃py = ascii⦄ source_lines) ≡ table index records
unfolding build_table parse_rows upper_ascii
built = refl

build_table-read_example :
    read records 47 ≡ owner index (sort by_start (parse_rows ⦃py = ascii⦄ source_lines)) 47
build_table-read_example =
    build_table-read ⦃py = ascii⦄ source_lines index records 47 built (omega arith)

build_table_shape_example :
    (begins_at_zero records ≡ true) × ((hi : ℕ) × Rises 0 records hi) × (repeats records ≡ false)
build_table_shape_example = build_table_shape ⦃py = ascii⦄ source_lines index records built

build_table-ne-key_error_example : build_table (parse_rows ⦃py = ascii⦄ source_lines) ≢ key_error
build_table-ne-key_error_example = build_table-ne-key_error (parse_rows ⦃py = ascii⦄ source_lines)

-- Three parsed nodes, of which the last repeats the first but for its display name.
abbrev node_at : String → String → ParsedNode
node_at host tag = record {
  protocol = trojan;
  transport = tcp;
  endpoint = record { host = host; port = pos 443; resolved_ip = none };
  auth = "pw";
  tag = tag;
  raw_uri = "";
  params = ("password", str "pw") ∷ [];
  source = "";
  source_file = "";
}

abbrev some_nodes : List ParsedNode
some_nodes =
    node_at "a.example" "one" ∷ node_at "b.example" "two" ∷ node_at "A.example." "three" ∷ []

abbrev a_key : String
a_key = "trojan|a.example:443|pw|tcp|"

dedup_keeps_first_example :
    (first_where (has_key ⦃py = ascii⦄ a_key) (dedup ⦃py = ascii⦄ some_nodes).nodes
      ≡ first_where (has_key ⦃py = ascii⦄ a_key) some_nodes)
    × (count (has_key ⦃py = ascii⦄ a_key) (dedup ⦃py = ascii⦄ some_nodes).nodes ≤ 1)
dedup_keeps_first_example = dedup_keeps_first ⦃py = ascii⦄ a_key some_nodes

-- The duplicate is found.
one_duplicate : (dedup ⦃py = ascii⦄ some_nodes).duplicates_removed ≡ 1
unfolding dedup stable_id lower_ascii
one_duplicate = refl

dedup_totals_example :
    (length (dedup ⦃py = ascii⦄ some_nodes).nodes
        + (dedup ⦃py = ascii⦄ some_nodes).duplicates_removed
      ≡ 3)
    × (sum_values (dedup ⦃py = ascii⦄ some_nodes).occurrences ≡ 3)
dedup_totals_example = dedup_totals ⦃py = ascii⦄ some_nodes

resolve_ip_stable_example :
    (resolve_ip
      (λ s. s == "10.0.0.1")
      "a.example"
      none
      (resolve_all
        (λ s. s == "10.0.0.1")
        (("b.example", none) ∷ [])
        (resolve_ip (λ s. s == "10.0.0.1") "a.example" (some ((true, "10.0.0.2") ∷ [])) []).1)).0
    ≡ (resolve_ip (λ s. s == "10.0.0.1") "a.example" (some ((true, "10.0.0.2") ∷ [])) []).0
resolve_ip_stable_example =
    resolve_ip_stable (λ s. s == "10.0.0.1") "a.example" (some ((true, "10.0.0.2") ∷ [])) none
      (("b.example", none) ∷ []) []

-- The state after one run that saw one node, and the next run half an hour later.
abbrev pub state : SeenState
state = record {
  runs_total = 1;
  window_h = pos 72;
  nodes = ("id1", first_entry calendar 5_000_000 1) ∷ [];
}

pub state-IsGood : IsGood calendar state
unfolding lookup has
state-IsGood = record {
  entries = (
    record {
      first_text = stamp calendar 5_000_000;
      first = 5_000_000;
      last_text = stamp calendar 5_000_000;
      last = 5_000_000;
      seen = 1;
      first_run = 1;
      has_first = refl;
      first_parses = calendar-IsLawful.parse-format 5_000_000;
      has_last = refl;
      last_parses = calendar-IsLawful.parse-format 5_000_000;
      has_seen = refl;
      has_run = refl;
      run_pos = omega arith;
      seen_pos = omega arith;
      seen_bound = omega arith;
    },
    tt,
  );
  distinct = (refl, tt);
}

abbrev pub ids : List String
ids = "id1" ∷ "id2" ∷ []

pub ids-IsIdSet : IsIdSet ids
unfolding one_of
ids-IsIdSet = (refl, (refl, tt))

abbrev pub later : ℕ
later = 1_805_000_000

-- What the state shows: one sighting.
abbrev shown : Timeline
shown = record {
  total = 1;
  window = pos 72;
  at = λ k.
      if "id1" == k
      then some (record { first = 5_000_000; last = 5_000_000; seen = pos 1; first_run = pos 1 })
      else none;
}

state-Shows : Shows ⦃py = ascii⦄ calendar state shown
state-Shows = record {
  same_total = refl;
  same_window = refl;
  same_nodes = λ k.
      unfold lookup sighting_of marks marks_of in
      elim (Bool-cases ("id1" == k)) [ inl here ↦ rw here refl | inr apart ↦ rw apart refl ];
}

observe-Shows_example :
    (s' : SeenState) × (observe ⦃py = ascii⦄ calendar ids later state ≡ ok s')
    × IsGood calendar s'
    × Shows ⦃py = ascii⦄ calendar s' (run_timeline ids later shown)
observe-Shows_example =
    observe-Shows ⦃py = ascii⦄ calendar calendar-IsLawful ids later state shown ids-IsIdSet
      state-IsGood refl state-Shows

lifetime_for-observe_example :
    (s' : SeenState) × (l : Lifetime) × (observe ⦃py = ascii⦄ calendar ids later state ≡ ok s')
    × (lifetime_for ⦃py = ascii⦄ calendar "id1" later s' ≡ ok l)
    × Describes calendar later 2 (sighted later 1 (shown.at "id1")) l
lifetime_for-observe_example =
    lifetime_for-observe ⦃py = ascii⦄ calendar calendar-IsLawful calendar-IsRounding later ids state
      shown 71 "id1" ids-IsIdSet state-IsGood refl refl state-Shows (unfold one_of in refl)
