-- ===== src/Cli/Run.antt =====
-- __main__.py: the command `run`, from the documents to the two files, and the dispatch of `main`.
use Prim.Native.Nat.{max}
use weronity_vpn.Prelude.{Option, ℕ, String, ◌<>◌, none, some, List, [], ◌∷◌, ltb, if◌then◌else◌}
use weronity_vpn.Prelude.Int.{pos_part}
use weronity_vpn.Prelude.Text.{one_of}
use weronity_vpn.Prelude.Value.{Runtime}
use weronity_vpn.Prelude.Result.{Result, ok, err, os_error, value_error, ◌>>=◌, or_raise}
use weronity_vpn.Models.{ParsedNode, Pool, Geo}
use weronity_vpn.Lifetime.{SeenState}
use weronity_vpn.Lifetime.File.{StateFile, holds, load, as_state, save}
use weronity_vpn.Harvest.{RawDocument, harvest, detect_kind, unknown}
use weronity_vpn.Ping.Driver.{ping_many}
use weronity_vpn.Build.{Options, build_pool}
use weronity_vpn.Build.Located.{hosts_of, resolve_hosts, fill_geo, geo_at}
use weronity_vpn.Dedup.{dedup}
use weronity_vpn.Resolver.{resolve_ip}
use weronity_vpn.Resolver.Lookup.{lookup_geo}
use weronity_vpn.Sources.{suffix_of, fetch}
use weronity_vpn.Cli.{RunArgs, Outside, Files, OfflineFile, offline_suffixes}

-- How a command ends: its exit code or an exception, and the files after it.
abbrev pub Outcome : Outside → Type 0
Outcome o = Result ℕ × Files o

module _ ⦃py : Runtime⦄ (o : Outside) where
  -- The loop of `_load_offline`, over the files in the order of their paths.
  unfoldable pub load_files : String → List OfflineFile → Result (List RawDocument)
  unfolding suffix_of one_of detect_kind
  load_files directory [] = ok []
  load_files directory (file ∷ files) =
      let rest = load_files directory files in
      let loaded : Result (List RawDocument) = or_raise os_error file.text >>= λ text.
      let doc : RawDocument = record {
        source = "offline:" <> directory;
        source_file = file.path;
        content = text;
        kind = unknown;
      } in
      rest >>= λ docs. ok (record doc { kind = detect_kind o.libs doc } ∷ docs) in
      if one_of (py.lower (suffix_of file.path)) offline_suffixes then loaded else rest

  -- The documents of a run; `offline` is the name of the directory.
  unfoldable pub documents : RunArgs → List OfflineFile → Result (List RawDocument)
  unfolding load_files fetch
  documents args listing =
      let fetched =
        fetch o.http o.libs (record { repo = args.source_repo; ref = args.ref; token = o.token }) in
      elim args.offline [ none ↦ fetched | some directory ↦ load_files directory listing ]

  abbrev pub options : RunArgs → Options
  options args = record {
    timeout_ms = args.timeout_ms;
    per_country = args.recommend_per_country;
    keep_dead = args.keep_dead;
    allow_private = args.allow_private;
    source_run = args.source_run;
    now = o.now;
  }

  -- `geo.lookup`, for the address of a host
  abbrev pub lookup_at : Option String → Result Geo
  lookup_at = lookup_geo o.is_alpha o.countries o.asns

  -- `build_pool` from the resolving of the hosts on, with its state file; the state that it saves at its
  -- end is the second part.
  unfoldable pub pooled :
      RunArgs → StateFile o.json.Text → List ParsedNode → Result (Pool × SeenState)
  unfolding dedup fill_geo resolve_hosts resolve_ip geo_at load as_state build_pool ping_many
      lookup_geo
  pooled args seen_file parsed = do
    let hosts = hosts_of (dedup parsed).nodes
    resolved ←
        resolve_hosts o.is_address o.first_answer o.later_answer lookup_at o.encodes_name hosts
    (geos, cache) ← fill_geo o.is_address o.first_answer o.later_answer lookup_at hosts [] resolved
    loaded ← load o.json seen_file
    seen ← as_state loaded
    build_pool o.cal o.addresses (geo_at geos) (options args)
        (λ host. (resolve_ip o.is_address host (o.later_answer host) cache).0) (ping_many o.network)
        seen parsed

  -- `args.out.write_text`, which empties the file before it encodes the text.
  unfoldable pub written_pool : Files o → o.schema.Text → Outcome o
  written_pool files text =
      if o.schema.encodes text
      then (ok 0, record files { pool = holds text })
      else (err value_error, record files { pool = holds o.schema.blank })

  -- The end of `cmd_run`, with the state saved: a small pool is refused.
  unfoldable pub publish : RunArgs → Files o → Pool → Outcome o
  unfolding written_pool
  publish args files pool =
      if ltb pool.stats.total (max 1 (pos_part args.min_nodes))
      then (ok 3, files)
      else elim (o.schema.print pool) [ err e ↦ (err e, files) | ok text ↦ written_pool files text ]

  -- `cmd_run` after the harvest
  unfoldable pub run_parsed : RunArgs → Files o → List ParsedNode → Outcome o
  unfolding pooled save publish
  run_parsed args files [] = (ok 2, files)
  run_parsed args files (n ∷ ns) = elim (pooled args files.seen (n ∷ ns)) [
    | err e ↦ (err e, files)
    | ok (pool, seen) ↦ publish args (record files { seen = holds (save o.json seen) }) pool
  ]

  -- `cmd_run`
  unfoldable pub cmd_run : RunArgs → List OfflineFile → Files o → Outcome o
  unfolding documents harvest run_parsed
  cmd_run args listing files = elim (documents args listing) [
    | err e ↦ (err e, files)
    | ok docs ↦ run_parsed args files (harvest o.libs docs).0
  ]
