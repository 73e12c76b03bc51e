-- ===== src/Cli.antt =====
-- __main__.py and schema.py: the commands, on the files that they read and write. The arguments are
-- those that `argparse` has read. The concurrency of the pings is left out: their results do not depend
-- on it, see Ping.Driver. `run` and the proofs are in the modules below.
pub mod Run
pub mod Published
pub mod Printed
use Prim.Native.Nat.{max}
use Prim.Native.String.{count as chars}
use weronity_vpn.Prelude.{
  Char, ℕ, zero, suc, ◌+◌, ◌-◌, ◌≡◌, String, ◌<>◌, Bool, true, false, Option, none, some, List, [],
  ◌∷◌, ◌++◌, ltb, leb, map, count, length, if◌then◌else◌, not,
}
use weronity_vpn.Prelude.Int.{ℤ, pos, pos_part}
use weronity_vpn.Prelude.Dict.{Dict, insert}
use weronity_vpn.Prelude.Sort.{sort}
use weronity_vpn.Prelude.Text.{one_of, show}
use weronity_vpn.Prelude.Value.{Value, str, Runtime}
use weronity_vpn.Prelude.Json.{Json}
use weronity_vpn.Prelude.Result.{Result, ok, err, value_error, os_error, ◌>>=◌}
use weronity_vpn.Models.{ParsedNode, Geo, Node, Pool, PoolStats}
use weronity_vpn.Classify.{Addresses}
use weronity_vpn.Resolver.{Answer}
use weronity_vpn.Resolver.Lookup.{Database, CountryRecord, AsnRecord}
use weronity_vpn.Lifetime.{Calendar, SeenState}
use weronity_vpn.Lifetime.File.{StateFile, no_file, unreadable, holds, load, as_state, save}
use weronity_vpn.Harvest.{RawDocument, Libraries, harvest, detect_kind, unknown}
use weronity_vpn.Ping.Driver.{Network, ping_many}
use weronity_vpn.Build.{Options, build_pool}
use weronity_vpn.Sources.{Http, GitHubRepoSource, suffix_of, fetch}

-- The options of `run`.
pub record RunArgs : Type 0 where
  pub offline : Option String
  pub source_repo : String
  pub ref : String
  pub timeout_ms : ℤ
  pub recommend_per_country : ℤ
  pub keep_dead : Bool
  pub min_nodes : ℤ
  pub allow_private : Bool
  pub source_run : Option String

-- The defaults of `_add_run`.
abbrev pub default_args : RunArgs
default_args = record {
  offline = none;
  source_repo = "igareck/vpn-configs-for-russia";
  ref = "HEAD";
  timeout_ms = pos 2000;
  recommend_per_country = pos 15;
  keep_dead = false;
  min_nodes = pos 1;
  allow_private = false;
  source_run = none;
}

-- What reading and validating the text of a pool comes to: no UTF-8, no JSON, no pool, or a pool.
pub data Reading : Type 0 where
  not_utf8 not_json not_valid : Reading
  valid : Pool → Reading

-- The texts of pool files, as `pydantic` and `json` print and read them. `print` raises on a value that
-- JSON does not have, `encodes` says whether a text has an encoding in UTF-8, and `blank` is the empty text.
pub record Schema : Type 1 where
  pub Text : Type 0
  pub print : Pool → Result Text
  pub encodes : Text → Bool
  pub blank : Text
  pub read : Text → Reading

-- What a run takes from outside.
pub record Outside : Type 1 where
  pub token : Option String
  pub now : ℕ
  pub cal : Calendar
  pub addresses : Addresses
  pub is_address : String → Bool
  pub encodes_name : String → Bool
  pub first_answer : String → Answer
  pub later_answer : String → Answer
  pub is_alpha : Char → Bool
  pub countries : Option (Database CountryRecord)
  pub asns : Option (Database AsnRecord)
  pub network : Network
  pub libs : Libraries
  pub http : Http
  pub json : Json
  pub schema : Schema

-- The two files of a run: `--out` and `--seen`.
pub record Files (o : Outside) : Type 0 where
  pub pool : StateFile o.schema.Text
  pub seen : StateFile o.json.Text

-- A file under the directory of `--offline`: its path there, and its text if it can be read.
pub record OfflineFile : Type 0 where
  pub path : String
  pub text : Option String

abbrev pub offline_suffixes : List String
offline_suffixes = ".txt" ∷ ".yaml" ∷ ".yml" ∷ ".json" ∷ ".b64" ∷ []

-- `validate_file`: a pool, or `none` for the text of an error
unfoldable pub validate_file : (schema : Schema) → StateFile schema.Text → Result (Option Pool)
validate_file schema no_file = ok none
validate_file schema unreadable = ok none
validate_file schema (holds text) = elim (schema.read text) [
  | not_utf8 ↦ err value_error
  | not_json ↦ ok none
  | not_valid ↦ ok none
  | valid pool ↦ ok (some pool)
]

-- The exit code and the printed lines of a command.
abbrev pub Output : Type 0
Output = ℕ × List String

-- The line of a valid pool.
unfoldable pub summary : Pool → String
unfolding show
summary pool =
    "OK: "
    <> show (pos pool.stats.total)
    <> " nodes, schema v"
    <> show (pos pool.schema_version)
    <> ", generated "
    <> pool.generated_at

-- `cmd_validate`
unfoldable pub cmd_validate : (schema : Schema) → StateFile schema.Text → Result Output
unfolding validate_file summary
cmd_validate schema file = do
  found ← validate_file schema file
  ok (elim found [ none ↦ (1, []) | some pool ↦ (0, summary pool ∷ []) ])

-- `key=lambda kv: -kv[1]`
abbrev pub by_count : String × ℕ → String × ℕ → Bool
by_count a b = leb b.1 a.1

abbrev pub spaces : ℕ → String
spaces zero = ""
spaces (suc n) = " " <> spaces n

-- `f"  {k:<16} {v}"`
unfoldable pub count_line : String × ℕ → String
unfolding show
count_line (k, v) = "  " <> k <> spaces (16 - chars k) <> " " <> show (pos v)

-- One round of the loop over the three tables.
unfoldable pub section : String → Dict ℕ → List String
unfolding sort count_line
section title d = "" ∷ ("by " <> title <> ":") ∷ map count_line (sort by_count d)

-- `cmd_stats`
unfoldable pub cmd_stats : (schema : Schema) → StateFile schema.Text → Result Output
unfolding validate_file section show count
cmd_stats schema file = do
  found ← validate_file schema file
  ok (elim found [
    | none ↦ (1, [])
    | some pool ↦ (
      0,
      ("total: " <> show (pos pool.stats.total))
          ∷ (section "protocol" pool.stats.by_protocol
              ++ (section "country" pool.stats.by_country
                  ++ (section "lifetime" pool.stats.by_lifetime
                      ++ ""
                        ∷ ("recommended: "
                            <> show (pos (count (λ n. n.recommended) pool.nodes))
                            <> "/"
                            <> show (pos pool.stats.total))
                        ∷ []))),
    )
  ])

-- `json_schema`, on what `pydantic` gives
unfoldable pub json_schema : Dict Value → Dict Value
unfolding insert
json_schema schema =
    insert "title" (str "Weronity nodes_pool.json")
      (insert "$schema" (str "https://json-schema.org/draft/2020-12/schema") schema)
