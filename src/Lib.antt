-- ===== src/Lib.antt =====
-- Verification of the collector of weronity-vpn and of the generator of its country table.
--
-- The collector (collector/src/weronity_collector) harvests proxy URIs, parses them into nodes, removes
-- duplicates, resolves and pings the servers, keeps a state of when each node was seen, and publishes a
-- pool of nodes with sing-box outbounds. Modules and code:
--
-- - Prelude: booleans, lists, dicts, integers, results, a stable sort, Python's string methods on native
--   texts, and the values of Python that come out of JSON and YAML. `Runtime` holds what Python reads
--   from its Unicode tables (letter cases, digits, printability), the SHA-1 digest and `repr`.
-- - Models (models.py): `ParsedNode` with `sni`, `security`, `dedup_key`, `stable_id`; the pool's records.
-- - Dedup (pipeline/dedup.py): `dedup`, as one pass over a record of its locals.
-- - Lifetime (pipeline/lifetime.py): `SeenState` with `observe`, `prune` (`_prune`), `lifetime_for`. An
--   instant is a number of microseconds; `Calendar` holds `datetime` parsing and printing, the range of
--   `datetime`, and the rounding of a float quotient to thousandths. `IsLawful` and `IsRounding` say what is documented.
--   Lifetime.File is the state file: `load`, `save`, and runs that follow each other through it. `Json`
--   in Prelude.Json stands for Python's `json`; the texts of files are a type of its own there.
--   Lifetime.File.Timeline is the contract of the state without file, texts and dicts: sightings by id.
-- - Outbound (outbound.py): `build_outbound` with its blocks; `KeyError` and the failing conversions are
--   results.
-- - Classify (pipeline/classify.py): `classify`; the answers of `ipaddress` are a parameter.
-- - Ping (pipeline/ping.py): the probe packet, Salamander, and the life of one QUIC probe as a fold over
--   events. Random bytes, the BLAKE2b digest, and what the network answers are arguments. Ping.Driver is
--   `ping_many`: tasks that share a semaphore, as a step relation that leaves their order open. A network
--   call fails, which the code catches, or raises something else, which ends `ping_many`.
-- - Resolver (pipeline/geoip.py): `resolve_ip` and its cache, as explicit state; Resolver.Lookup is
--   `GeoResolver.lookup` with `_flag`.
-- - Parsers (parsers/): the helpers (Common), what is used of `urllib.parse` (Url), one module for each
--   scheme, and `parse_uri` and `iter_uris` (Registry). `Codec` holds percent decoding, base64, JSON and
--   two checks of `urlsplit`. Clash (parsers/clash.py) reads the value that a YAML parser gives.
-- - Harvest (harvest.py, sources/base.py): the kinds of documents, and the loop over them with its counts.
-- - Sources (sources/github.py): the documents of a GitHub repository; `Http` is what the server answers.
-- - Build (pipeline/build.py): `build_pool` as the composition of the parts above, with the addresses,
--   the geo data and the ping results as arguments; `stats_of` (`_stats`). Build.Located is the part before
--   the pings, in which the hosts get their addresses and geo data.
-- - Ranking (pipeline/build.py): `mark_recommended` (`_mark_recommended`).
-- - GeoTable (app/tool/build_geoip.py): from the lines of a CSV to the records of the country table, and
--   the documented way to read it. GeoTable.File is the file of the table, as the generator writes it
--   and as `GeoIpService.parseBytes` (app/lib/data/geoip_service.dart) reads it; GeoTable.Client is
--   `GeoIpService.lookupIp`, whose search runs on as many rounds as the table has records.
-- - Cli (__main__.py, schema.py): the commands `run` (Cli.Run), `validate` and `stats` on the files that
--   they read and write. `Outside` holds all that a run takes from its surroundings.
-- - FetchGeoip (scripts/fetch_geoip.py): the download of the databases.
-- - Tests: the parameters at concrete values, the examples of the results, and small runs.
--
-- All loops but two are structural recursion. Printing a number takes one round for each decimal digit
-- and has the number plus one rounds. The client's search halves a range of indices and has one round
-- for each record, which is enough in every table.
--
-- Not modelled: the parsing of the command line, log messages, the closing of connections and databases,
-- a failure of the file system while a file is written, a semaphore of size zero, and of the client
-- application all but the country table. Of values that the code meets only in odd inputs: a date in a
-- YAML document is kept as a number and a key that is no text is dropped, so that the failure of `json` to
-- print a date appears only as one of `Schema`; a state file with a negative number of runs, or with a null
-- for an entry whose id is present, ends a run here where the code goes on.
pub mod Prelude
pub mod Build
pub mod Classify
pub mod Cli
pub mod Dedup
pub mod FetchGeoip
pub mod GeoTable
pub mod Harvest
pub mod Lifetime
pub mod Models
pub mod Outbound
pub mod Parsers
pub mod Ping
pub mod Ranking
pub mod Resolver
pub mod Sources
pub mod Tests
