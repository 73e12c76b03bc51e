-- ===== src/Tests/Published.antt =====
-- Examples for the command `run`: one run from a directory, with its two files.
use Prim.Native.Nat.{max}
use weronity_vpn.Prelude.{
  ◌==◌, if◌then◌else◌, ◌≤◌, ◌≡◌, refl, true, some, none, List, [], ◌∷◌, All, length,
}
use weronity_vpn.Prelude.Int.{pos, pos_part}
use weronity_vpn.Prelude.Result.{ok, err, type_error}
use weronity_vpn.Models.{Pool}
use weronity_vpn.Lifetime.File.{no_file, holds}
use weronity_vpn.Build.{is_public}
use weronity_vpn.Build.Alive.{IsAlive, Dials}
use weronity_vpn.Cli.{RunArgs, default_args, valid, Schema, Outside, Files, OfflineFile}
use weronity_vpn.Cli.Run.{cmd_run}
use weronity_vpn.Cli.Published.{Ends, cmd_run-Ends, cmd_run_publishes}
use weronity_vpn.Tests.Setup.{upper_ascii, ascii, lower_ascii, calendar, addresses, marks, marks_of}
use weronity_vpn.Tests.Runs.{libraries, no_run}
use weronity_vpn.Tests.Pings.{network}
use weronity_vpn.Tests.States.{json}
use weronity_vpn.Tests.Commands.{http, countries, is_letter}

-- The text of a pool file is the pool.
abbrev schema : Schema
schema = record {
  Text = Pool;
  print = λ pool. ok pool;
  encodes = λ pool. true;
  blank = no_run.0;
  read = λ pool. valid pool;
}

abbrev outside : Outside
outside = record {
  token = none;
  now = 5_000_000;
  cal = calendar;
  addresses = addresses;
  is_address = λ s. s == "10.0.0.1";
  encodes_name = λ host. true;
  first_answer = λ host. some ((true, if host == "a.example" then "1.2.3.4" else "10.0.0.1") ∷ []);
  later_answer = λ host. none;
  is_alpha = is_letter;
  countries = some countries;
  asns = none;
  network = network;
  libs = libraries;
  http = http;
  json = json;
  schema = schema;
}

abbrev args : RunArgs
args = record default_args { offline = some "samples" }

abbrev listing : List OfflineFile
listing =
    record { path = "notes.md"; text = some "trojan://pw@c.example:443" }
    ∷ record {
      path = "list.txt";
      text = some "trojan://pw@a.example:443\ntrojan://pw@b.example:443";
    }
    ∷ []

abbrev before : Files outside
before = record { pool = no_file; seen = no_file }

succeeded : (cmd_run ⦃py = ascii⦄ outside args listing before).0 ≡ ok 0
unfolding cmd_run lower_ascii upper_ascii marks marks_of
succeeded = refl

cmd_run-Ends_example :
    Ends ⦃py = ascii⦄ outside args before (cmd_run ⦃py = ascii⦄ outside args listing before)
cmd_run-Ends_example = cmd_run-Ends ⦃py = ascii⦄ outside args listing before

cmd_run_publishes_example :
    (pool : Pool) × (text : Pool) × (schema.print pool ≡ ok text)
    × ((cmd_run ⦃py = ascii⦄ outside args listing before).1.pool ≡ holds text)
    × (max 1 (pos_part (pos 1)) ≤ length pool.nodes)
    × All
        (λ n. IsAlive (pos 2000) n × (is_public addresses n.endpoint.resolved_ip ≡ true) × Dials n)
        pool.nodes
cmd_run_publishes_example =
    cmd_run_publishes ⦃py = ascii⦄ outside args refl refl listing before succeeded

-- A pool that cannot be printed: the state is saved, and the pool file stays.
abbrev no_print : Outside
no_print = record outside { schema = record schema { print = λ pool. err type_error } }

abbrev no_print_before : Files no_print
no_print_before = record { pool = no_file; seen = no_file }

unprinted :
    ((cmd_run ⦃py = ascii⦄ no_print args listing no_print_before).0 ≡ err type_error)
    × ((cmd_run ⦃py = ascii⦄ no_print args listing no_print_before).1.pool ≡ no_file)
unfolding cmd_run lower_ascii upper_ascii marks marks_of
unprinted = (refl, refl)
