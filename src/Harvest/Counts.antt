-- ===== src/Harvest/Counts.antt =====
-- What a harvest counts, and the ports of what it finds.
use weronity_vpn.Prelude.{
  ℕ, ◌+◌, ◌≤◌, String, ◌≡◌, refl, List, [], ◌∷◌, ◌++◌, not, ◌==◌, arith, length, length-append, map,
  All, All-append,
}
use weronity_vpn.Prelude.Int.{pos}
use weronity_vpn.Prelude.Dict.{Dict, lookup}
use weronity_vpn.Prelude.Text.{strip}
use weronity_vpn.Prelude.Value.{
  to_dict, Value, null, bool, int, float, str, arr, obj, Items, nil, cons, Runtime, to_int, get,
  or_value,
}
use weronity_vpn.Prelude.Result.{Result, ok, err, parse_error, >>=-eq-ok, ok_inj, or_raise}
use weronity_vpn.Models.{ParsedNode}
use weronity_vpn.Parsers.Common.{require}
use weronity_vpn.Parsers.Shadowsocks.{decode_text}
use weronity_vpn.Parsers.Registry.{is_port, parse_uri, iter_uris}
use weronity_vpn.Parsers.Dispatch.{parse_uri_port, is_port-bounds}
use weronity_vpn.Parsers.Sound.{require-ok}
use weronity_vpn.Parsers.Clash.{
  one_proxy, proxies_of, proxies_value, iterate, parse_clash, clash_type, text_of, text_list,
  clash_credentials,
}
use weronity_vpn.Harvest.{
  DocKind, uri_list, clash, base64, json, unknown, RawDocument, HarvestStats, Libraries, kind_of,
  sourced, Harvested, harvest_uris, harvest_clash, harvest_decoded, harvest_as, harvest_doc,
  harvest_all, harvest,
}

-- A port that a connection can be made to.
abbrev pub HasPort : ParsedNode → Type 0
HasPort n = (p : ℕ) × (n.endpoint.port ≡ pos p) × (1 ≤ p) × (p ≤ 65535)

length-map : {A B : Type 0} (f : A → B) (l : List A) → length (map f l) ≡ length l
length-map f [] = refl
length-map f (x ∷ l) = omega (arith, length-map f l)

module _ ⦃py : Runtime⦄ (libs : Libraries) where
  one_proxy-HasPort : (px : Dict Value) (n : ParsedNode) → one_proxy px ≡ ok n → HasPort n
  unfolding one_proxy
  one_proxy-HasPort px n e =
      let (protocol, _, e1) =
        >>=-eq-ok (or_raise parse_error (clash_type (py.lower (text_of "type" px)))) _ e in
      let (_, _, e2) = >>=-eq-ok (require (not (strip (text_of "server" px) == ""))) _ e1 in
      let (v, _, e3) = >>=-eq-ok (or_raise parse_error (lookup "port" px)) _ e2 in
      let (port, _, e4) = >>=-eq-ok (or_raise parse_error (to_int v)) _ e3 in
      let (x, fits, e5) = >>=-eq-ok (require (is_port port)) _ e4 in
      let (alpn, _, e6) = >>=-eq-ok (text_list (get "alpn" px)) _ e5 in
      let (found, _, e7) = >>=-eq-ok (clash_credentials protocol px) _ e6 in
      rw (← ok_inj e7) (is_port-bounds port (require-ok _ x fits))

  proxies_of-HasPort : (items : Items) → All HasPort (proxies_of items)
  unfolding proxies_of
  proxies_of-HasPort nil = tt
  proxies_of-HasPort (cons (obj fs) items) =
      keep (one_proxy (to_dict fs)) refl (proxies_of-HasPort items)
    where
      keep :
          (found : Result ParsedNode)
          → one_proxy (to_dict fs) ≡ found
          → All HasPort (proxies_of items)
          → All HasPort (elim found [ err e ↦ proxies_of items | ok n ↦ n ∷ proxies_of items ])
      keep (err e) h rest = rest
      keep (ok n) h rest = (one_proxy-HasPort (to_dict fs) n h, rest)
  proxies_of-HasPort (cons null items) = proxies_of-HasPort items
  proxies_of-HasPort (cons (bool b) items) = proxies_of-HasPort items
  proxies_of-HasPort (cons (int z) items) = proxies_of-HasPort items
  proxies_of-HasPort (cons (float x) items) = proxies_of-HasPort items
  proxies_of-HasPort (cons (str s) items) = proxies_of-HasPort items
  proxies_of-HasPort (cons (arr vs) items) = proxies_of-HasPort items

  parse_clash-HasPort :
      (text : String) (ns : List ParsedNode) → parse_clash libs.yaml text ≡ ok ns → All HasPort ns
  unfolding parse_clash
  parse_clash-HasPort text ns e =
      let (doc, _, e1) = >>=-eq-ok (or_raise parse_error (libs.yaml text)) _ e in
      let (proxies, _, e2) = >>=-eq-ok (proxies_value doc) _ e1 in
      let (items, _, e3) = >>=-eq-ok (iterate (or_value proxies (arr nil))) _ e2 in
      rw (← ok_inj e3) (proxies_of-HasPort items)

  map-sourced :
      (doc : RawDocument) (ns : List ParsedNode)
      → All HasPort ns
      → All HasPort (map (sourced doc) ns)
  map-sourced doc [] h = tt
  map-sourced doc (n ∷ ns) (p, h) = (p, map-sourced doc ns h)

  -- The counts are those of the nodes, and the nodes have ports.
  abbrev Counted : Harvested → Type 0
  Counted (nodes, stats) = (stats.parsed ≡ length nodes) × All HasPort nodes

  after_uri :
      (doc : RawDocument) (uri : String) (uris : List String) (nodes : List ParsedNode)
      (stats : HarvestStats) (found : Result ParsedNode)
      → parse_uri libs.codec uri ≡ found
      → (let out = harvest_uris libs doc uris (nodes, record stats { failed = stats.failed + 1 }) in
          Counted out × (out.1.documents ≡ stats.documents))
      → ((n : ParsedNode)
          → HasPort n
          → (let out =
                harvest_uris libs doc uris
                  (nodes ++ sourced doc n ∷ [], record stats { parsed = stats.parsed + 1 }) in
              Counted out × (out.1.documents ≡ stats.documents)))
      → (let out : Harvested = elim found [
        | err e ↦ harvest_uris libs doc uris (nodes, record stats { failed = stats.failed + 1 })
        | ok n ↦
            harvest_uris libs doc uris
              (nodes ++ sourced doc n ∷ [], record stats { parsed = stats.parsed + 1 })
      ] in
          Counted out × (out.1.documents ≡ stats.documents))
  after_uri doc uri uris nodes stats (err e) r failed good = failed
  after_uri doc uri uris nodes stats (ok n) r failed good =
      good n (parse_uri_port libs.codec uri n r)

  harvest_uris-Counted :
      (doc : RawDocument) (uris : List String) (done : Harvested)
      → Counted done
      → Counted (harvest_uris libs doc uris done)
        × ((harvest_uris libs doc uris done).1.documents ≡ done.1.documents)
  unfolding harvest_uris
  harvest_uris-Counted doc [] done h = (h, refl)
  harvest_uris-Counted doc (uri ∷ uris) (nodes, stats) (h, ports) =
      after_uri doc uri uris nodes stats (parse_uri libs.codec uri) refl
        (harvest_uris-Counted doc uris (nodes, record stats { failed = stats.failed + 1 })
          (h, ports))
        λ n p.
          harvest_uris-Counted doc uris
            (nodes ++ sourced doc n ∷ [], record stats { parsed = stats.parsed + 1 })
            (
              omega (arith, h, length-append nodes (sourced doc n ∷ [])),
              All-append HasPort nodes _ ports (p, tt),
            )

  harvest_clash-Counted :
      (doc : RawDocument) (text : String) (done : Harvested)
      → Counted done
      → Counted (harvest_clash libs doc text done)
        × ((harvest_clash libs doc text done).1.documents ≡ done.1.documents)
  unfolding harvest_clash
  harvest_clash-Counted doc text (nodes, stats) (h, ports) =
      count_found (parse_clash libs.yaml text) refl
    where
      count_found :
          (found : Result (List ParsedNode))
          → parse_clash libs.yaml text ≡ found
          → (let out : Harvested = elim found [
            | err e ↦ (nodes, record stats { failed = stats.failed + 1 })
            | ok ns ↦
                (nodes ++ map (sourced doc) ns, record stats { parsed = stats.parsed + length ns })
          ] in
              Counted out × (out.1.documents ≡ stats.documents))
      count_found (err e) r = ((h, ports), refl)
      count_found (ok ns) r = (
        (
          omega (arith, h, length-append nodes (map (sourced doc) ns), length-map (sourced doc) ns),
          All-append HasPort nodes _ ports (map-sourced doc ns (parse_clash-HasPort text ns r)),
        ),
        refl,
      )

  harvest_as-Counted :
      (kind : DocKind) (doc : RawDocument) (done : Harvested)
      → Counted done
      → Counted (harvest_as libs kind doc done)
        × ((harvest_as libs kind doc done).1.documents ≡ done.1.documents)
  unfolding harvest_as harvest_decoded
  harvest_as-Counted base64 doc done h = decoded (decode_text libs.codec doc.content)
    where
      decoded :
          (text : Result String)
          → Counted (harvest_decoded libs doc text done)
            × ((harvest_decoded libs doc text done).1.documents ≡ done.1.documents)
      decoded (err e) = (h, refl)
      decoded (ok text) = harvest_uris-Counted doc (iter_uris text) done h
  harvest_as-Counted clash doc done h = harvest_clash-Counted doc doc.content done h
  harvest_as-Counted uri_list doc done h = harvest_uris-Counted doc (iter_uris doc.content) done h
  harvest_as-Counted json doc done h = (h, refl)
  harvest_as-Counted unknown doc done h = (h, refl)

  harvest_all-Counted :
      (docs : List RawDocument) (done : Harvested)
      → Counted done
      → Counted (harvest_all libs docs done)
        × ((harvest_all libs docs done).1.documents ≡ done.1.documents + length docs)
  unfolding harvest_all harvest_doc
  harvest_all-Counted [] done h = (h, omega arith)
  harvest_all-Counted (doc ∷ docs) (nodes, stats) h =
      let (counted, same) =
        harvest_as-Counted (kind_of libs doc) doc
          (nodes, record stats { documents = stats.documents + 1 }) h in
      let (all, total) = harvest_all-Counted docs (harvest_doc libs doc (nodes, stats)) counted in
      (all, omega (arith, total, same))

  -- A harvest counts every document, and as parsed exactly the nodes that it returns, each of which has
  -- a port from 1 to 65535, from whatever kind of document it comes.
  pub harvest_counts :
      (docs : List RawDocument)
      → ((harvest libs docs).1.documents ≡ length docs)
        × ((harvest libs docs).1.parsed ≡ length (harvest libs docs).0)
        × All HasPort (harvest libs docs).0
  unfolding harvest
  harvest_counts docs =
      let (counted, total) =
        harvest_all-Counted docs ([], record { documents = 0; parsed = 0; failed = 0 })
          (refl, tt) in
      (omega (arith, total), counted.0, counted.1)
