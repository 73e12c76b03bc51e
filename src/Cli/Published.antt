-- ===== src/Cli/Published.antt =====
-- What a run leaves in its files.
use Prim.Native.Nat.{max}
use weronity_vpn.Prelude.{
  String, Option, ◌≤◌, ◌≡◌, ◌≢◌, ◌⊎◌, inl, inr, refl, ap, sym, ◌∙◌, true, false, List, [], ◌∷◌, ltb,
  length, arith, All, Bool-cases,
}
use weronity_vpn.Prelude.Int.{pos_part}
use weronity_vpn.Prelude.Value.{Runtime}
use weronity_vpn.Prelude.Result.{Fault, Result, ok, err, value_error, >>=-eq-ok, ok_inj}
use weronity_vpn.Models.{Geo, ParsedNode, Pool}
use weronity_vpn.Dedup.{dedup}
use weronity_vpn.Lifetime.{SeenState}
use weronity_vpn.Lifetime.File.{StateFile, holds, load, as_state, save}
use weronity_vpn.Harvest.{RawDocument, harvest}
use weronity_vpn.Ping.Driver.{ping_many}
use weronity_vpn.Build.{is_public, build_pool}
use weronity_vpn.Build.Located.{hosts_of, resolve_hosts, fill_geo, geo_at}
use weronity_vpn.Resolver.{resolve_ip}
use weronity_vpn.Build.Alive.{IsAlive, Dials, build_pool_reachable, build_pool-total}
use weronity_vpn.Cli.{RunArgs, Outside, Files, OfflineFile}
use weronity_vpn.Cli.Run.{
  Outcome, documents, options, lookup_at, pooled, publish, written_pool, run_parsed, cmd_run,
}

module _ ⦃py : Runtime⦄ (o : Outside) (args : RunArgs) where
  -- The run leaves the files as they are, and has not succeeded.
  abbrev pub Unchanged : Files o → Outcome o → Type 0
  Unchanged files out = (out.1 ≡ files) × (out.0 ≢ ok 0)

  -- The run saves its state, and refuses to write its pool.
  abbrev pub Refused : Files o → Outcome o → Type 0
  Refused files out =
      (seen : SeenState) × (out.0 ≡ ok 3)
      × (out.1 ≡ record files { seen = holds (save o.json seen) })

  -- The run saves its state and then raises, since its pool cannot be printed, or its text not encoded.
  -- The pool file is as it was in the first case and empty in the second.
  abbrev pub Broken : Files o → Outcome o → Type 0
  Broken files out =
      (pool : Pool) × (seen : SeenState) × (e : Fault) × (out.0 ≡ err e)
      × (((o.schema.print pool ≡ err e)
            × (out.1 ≡ record files { seen = holds (save o.json seen) }))
          ⊎ ((text : o.schema.Text) × (o.schema.print pool ≡ ok text)
              × (o.schema.encodes text ≡ false)
              × (out.1 ≡ record { pool = holds o.schema.blank; seen = holds (save o.json seen) })))

  -- The run saves its state and writes a pool that it built, of no fewer nodes than are asked for.
  abbrev pub Written : Files o → Outcome o → Type 0
  Written files out =
      (pool : Pool) × (text : o.schema.Text) × (seen : SeenState) × (parsed : List ParsedNode)
      × (out.0 ≡ ok 0)
      × (o.schema.print pool ≡ ok text)
      × (out.1 ≡ record { pool = holds text; seen = holds (save o.json seen) })
      × (pooled o args files.seen parsed ≡ ok (pool, seen))
      × (max 1 (pos_part args.min_nodes) ≤ pool.stats.total)

  abbrev pub Ends : Files o → Outcome o → Type 0
  Ends files out =
      Unchanged files out ⊎ (Refused files out ⊎ (Broken files out ⊎ Written files out))

  publish-Ends :
      (files : Files o) (parsed : List ParsedNode) (pool : Pool) (seen : SeenState)
      → pooled o args files.seen parsed ≡ ok (pool, seen)
      → Ends files (publish o args (record files { seen = holds (save o.json seen) }) pool)
  unfolding publish
  publish-Ends files parsed pool seen built =
      elim (Bool-cases (ltb pool.stats.total (max 1 (pos_part args.min_nodes)))) [
        | inl few ↦ rw (publish, few) (inr (inl (seen, refl, refl)))
        | inr many ↦ go (o.schema.print pool) refl many (ground arith)
      ]
    where
      saved : Files o
      saved = record files { seen = holds (save o.json seen) }

      go :
          (printed : Result o.schema.Text)
          → o.schema.print pool ≡ printed
          → ltb pool.stats.total (max 1 (pos_part args.min_nodes)) ≡ false
          → max 1 (pos_part args.min_nodes) ≤ pool.stats.total
          → Ends files (publish o args (record files { seen = holds (save o.json seen) }) pool)
      go (err e) h many enough =
          rw (publish, many, h) (inr (inr (inl (pool, seen, e, refl, inl (h, refl)))))
      go (ok text) h many enough = elim (Bool-cases (o.schema.encodes text)) [
        | inl yes_it_has ↦
            rw (publish, many, h, written_pool, yes_it_has)
              (inr (inr (inr (pool, text, seen, parsed, refl, h, refl, built, enough))))
        | inr no_code ↦
            rw (publish, many, h, written_pool, no_code)
              (inr (inr (inl (pool, seen, value_error, refl, inr (text, h, no_code, refl)))))
      ]

  run_parsed-Ends :
      (files : Files o) (parsed : List ParsedNode) → Ends files (run_parsed o args files parsed)
  unfolding run_parsed
  run_parsed-Ends files [] = inl (refl, λ h. cc)
  run_parsed-Ends files (n ∷ ns) = go (pooled o args files.seen (n ∷ ns)) refl
    where
      go :
          (found : Result (Pool × SeenState))
          → pooled o args files.seen (n ∷ ns) ≡ found
          → Ends files (run_parsed o args files (n ∷ ns))
      go (err e) h = rw (run_parsed, h) (inl (refl, λ q. cc))
      go (ok (pool, seen)) h = rw (run_parsed, h) (publish-Ends files (n ∷ ns) pool seen h)

  -- A run whose files can be written ends in one of four ways. It fails or has no nodes, and leaves its
  -- files as they are. Or it saves its state but refuses its pool, with exit code 3, and leaves the pool
  -- file as it is. Or it saves its state and then raises, because its pool cannot be printed, and leaves
  -- the pool file as it is, or because the text has no encoding, and empties the pool file. Or it exits
  -- with 0, saves its state, and the pool file is a pool that was built from the old state, of no fewer
  -- nodes than are asked for and of at least one.
  pub cmd_run-Ends :
      (listing : List OfflineFile) (files : Files o) → Ends files (cmd_run o args listing files)
  unfolding cmd_run
  cmd_run-Ends listing files = go (documents o args listing) refl
    where
      go :
          (found : Result (List RawDocument))
          → documents o args listing ≡ found
          → Ends files (cmd_run o args listing files)
      go (err e) h = rw (cmd_run, h) (inl (refl, λ q. cc))
      go (ok docs) h = rw (cmd_run, h) (run_parsed-Ends files (harvest o.libs docs).0)

  succeeded :
      (files : Files o) (out : Outcome o) → Ends files out → out.0 ≡ ok 0 → Written files out
  succeeded files out (inl (_, failed)) h = absurd (failed h)
  succeeded files out (inr (inl (seen, refused, _))) h =
      let bad : 3 ≡ 0 = ok_inj (sym refused ∙ h) in absurd (omega (arith, bad))
  succeeded files out (inr (inr (inl (_, _, e, raised, _)))) h =
      absurd (let bad : err e ≡ ok 0 = sym raised ∙ h in cc)
  succeeded files out (inr (inr (inr written))) h = written

  pooled-build_pool :
      (seen_file : StateFile o.json.Text) (parsed : List ParsedNode) (pool : Pool)
      (seen : SeenState)
      → pooled o args seen_file parsed ≡ ok (pool, seen)
      → (geo_of : String → Geo) × (resolved : String → Option String) × (before : SeenState)
        × (build_pool o.cal o.addresses geo_of
              (options o args)
              resolved
              (ping_many o.network)
              before
              parsed
            ≡ ok (pool, seen))
  unfolding pooled
  pooled-build_pool seen_file parsed pool seen h =
      let hosts = hosts_of (dedup parsed).nodes in
      let (found, _, hr) =
        >>=-eq-ok
          (resolve_hosts o.is_address o.first_answer o.later_answer (lookup_at o) o.encodes_name
            hosts)
          _ h in
      let ((geos, cache), _, h0) =
        >>=-eq-ok (fill_geo o.is_address o.first_answer o.later_answer (lookup_at o) hosts [] found)
          _ hr in
      let (loaded, _, h1) = >>=-eq-ok (load o.json seen_file) _ h0 in
      let (before, _, h2) = >>=-eq-ok (as_state loaded) _ h1 in
      (
        geo_at geos,
        λ host. (resolve_ip o.is_address host (o.later_answer host) cache).0,
        before,
        h2,
      )

  module _ (live : args.keep_dead ≡ false) (public_only : args.allow_private ≡ false) where
    -- What is published by a run that exits with 0, without the options to keep dead nodes and to allow
    -- private addresses: a pool of no fewer nodes than are asked for, of which every one has answered
    -- its probe in time and none has an address that is not public, and the outbound of each names the
    -- host, the port and the protocol of its node.
    pub cmd_run_publishes :
        (listing : List OfflineFile) (files : Files o)
        → (cmd_run o args listing files).0 ≡ ok 0
        → (pool : Pool) × (text : o.schema.Text) × (o.schema.print pool ≡ ok text)
          × ((cmd_run o args listing files).1.pool ≡ holds text)
          × (max 1 (pos_part args.min_nodes) ≤ length pool.nodes)
          × All
              (λ n.
                IsAlive args.timeout_ms n
                × (is_public o.addresses n.endpoint.resolved_ip ≡ true)
                × Dials n)
              pool.nodes
    cmd_run_publishes listing files done =
        let (pool, text, seen, parsed, _, printed, after, built, enough) =
          succeeded files (cmd_run o args listing files) (cmd_run-Ends listing files) done in
        let (geo_of, resolved, before, run) = pooled-build_pool files.seen parsed pool seen built in
        (
          pool,
          text,
          printed,
          ap (λ (f : Files o). f.pool) after,
          omega (
            arith,
            enough,
            build_pool-total o.cal o.addresses geo_of (options o args) resolved
                (ping_many o.network) before seen parsed pool run,
          ),
          build_pool_reachable o.cal o.addresses geo_of (options o args) live public_only resolved
              (ping_many o.network) before seen parsed pool run,
        )
