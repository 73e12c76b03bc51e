-- ===== src/Harvest.antt =====
-- harvest.py and sources/base.py: from documents to parsed nodes, with the counts of a run. The proofs
-- are in the module below.
pub mod Counts
use weronity_vpn.Prelude.{
  ℕ, ◌+◌, String, ◌<>◌, Bool, true, false, Option, none, some, List, [], ◌∷◌, ◌++◌, ◌&&◌, ◌||◌, not,
  ◌==◌, ltb, if◌then◌else◌, length, map, any_of, select,
}
use Prim.Native.String.{count as chars}
use weronity_vpn.Prelude.Text.{strip, contains, ends_with, take_chars, is_space, split_by}
use weronity_vpn.Prelude.Value.{Value, Runtime}
use weronity_vpn.Prelude.Result.{Result, ok, err, parse_error, or_raise}
use weronity_vpn.Models.{ParsedNode}
use weronity_vpn.Parsers.Url.{Codec}
use weronity_vpn.Parsers.Common.{padding}
use weronity_vpn.Parsers.Shadowsocks.{decode_text}
use weronity_vpn.Parsers.Registry.{parse_uri, iter_uris}
use weronity_vpn.Parsers.Clash.{parse_clash}

pub data DocKind : Type 0 where
  uri_list clash base64 json unknown : DocKind

pub record RawDocument : Type 0 where
  pub source : String
  pub source_file : String
  pub content : String
  pub kind : DocKind

pub record HarvestStats : Type 0 where
  pub documents : ℕ
  pub parsed : ℕ
  pub failed : ℕ

-- What the code takes from libraries: the parsers' `Codec`, the YAML parser, and the text of a base64
-- that is decoded with validation and is UTF-8.
pub record Libraries : Type 0 where
  pub codec : Codec
  pub yaml : String → Option Value
  pub strict_base64 : String → Option String

abbrev pub schemes_in_text : List String
schemes_in_text =
    "vless://" ∷ "vmess://" ∷ "trojan://" ∷ "hysteria2://" ∷ "hy2://" ∷ "ss://" ∷ "tuic://" ∷ []

-- `"".join(text.split())`
unfoldable pub without_spaces : String → String
unfolding is_space split_by
without_spaces text = join (split_by is_space text)
  where
    join : List String → String
    join [] = ""
    join (w ∷ ws) = w <> join ws

abbrev pub is_unknown : DocKind → Bool
is_unknown unknown = true
is_unknown _ = false

-- `node.source, node.source_file = doc.source, doc.source_file`
abbrev pub sourced : RawDocument → ParsedNode → ParsedNode
sourced doc n = record n { source = doc.source; source_file = doc.source_file }

abbrev pub Harvested : Type 0
Harvested = List ParsedNode × HarvestStats

module _ ⦃py : Runtime⦄ (libs : Libraries) where
  -- `_looks_base64`
  unfoldable pub looks_base64 : String → Bool
  unfolding without_spaces padding contains
  looks_base64 text =
      let sample = without_spaces text in
      let decoded = libs.strict_base64 (sample <> padding (chars sample)) in
      not (ltb (chars sample) 24) && elim decoded [ none ↦ false | some t ↦ contains "://" t ]

  -- `RawDocument.detect_kind`
  unfoldable pub detect_kind : RawDocument → DocKind
  unfolding strip ends_with contains take_chars any_of looks_base64
  detect_kind doc =
      let text = strip doc.content in
      let low = py.lower doc.source_file in
      if text == ""
      then unknown
      else if (ends_with low ".yaml" || ends_with low ".yml") && contains "proxies:" text
      then clash
      else if contains "proxies:" (take_chars 2000 text)
          && (contains "server:" text || contains "type:" text)
      then clash
      else if any_of (λ s. contains s text) schemes_in_text
      then uri_list
      else if looks_base64 text
      then base64
      else unknown

  -- `doc.kind if doc.kind != "unknown" else doc.detect_kind()`
  unfoldable pub kind_of : RawDocument → DocKind
  unfolding detect_kind
  kind_of doc = if is_unknown doc.kind then detect_kind doc else doc.kind

  -- The loop over the URIs of a text: a URI that is not parsed counts as failed.
  unfoldable pub harvest_uris : RawDocument → List String → Harvested → Harvested
  unfolding parse_uri
  harvest_uris doc [] done = done
  harvest_uris doc (uri ∷ uris) (nodes, stats) =
      let failed' = harvest_uris doc uris (nodes, record stats { failed = stats.failed + 1 }) in
      elim (parse_uri libs.codec uri) [
        | err e ↦ failed'
        | ok n ↦
            harvest_uris doc uris
              (nodes ++ sourced doc n ∷ [], record stats { parsed = stats.parsed + 1 })
      ]

  -- The branch of a Clash configuration.
  unfoldable pub harvest_clash : RawDocument → String → Harvested → Harvested
  unfolding parse_clash
  harvest_clash doc text (nodes, stats) = elim (parse_clash libs.yaml text) [
    | err e ↦ (nodes, record stats { failed = stats.failed + 1 })
    | ok found ↦
        (nodes ++ map (sourced doc) found, record stats { parsed = stats.parsed + length found })
  ]

  -- A text in base64, or the error of its decoding.
  unfoldable pub harvest_decoded : RawDocument → Result String → Harvested → Harvested
  unfolding iter_uris harvest_uris
  harvest_decoded doc (err e) done = done
  harvest_decoded doc (ok text) done = harvest_uris doc (iter_uris text) done

  -- The branches by kind.
  unfoldable pub harvest_as : DocKind → RawDocument → Harvested → Harvested
  unfolding decode_text iter_uris harvest_uris harvest_clash harvest_decoded
  harvest_as base64 doc done = harvest_decoded doc (decode_text libs.codec doc.content) done
  harvest_as clash doc done = harvest_clash doc doc.content done
  harvest_as uri_list doc done = harvest_uris doc (iter_uris doc.content) done
  harvest_as _ doc done = done

  -- One round of the loop over the documents.
  unfoldable pub harvest_doc : RawDocument → Harvested → Harvested
  unfolding kind_of harvest_as
  harvest_doc doc (nodes, stats) =
      harvest_as (kind_of doc) doc (nodes, record stats { documents = stats.documents + 1 })

  unfoldable pub harvest_all : List RawDocument → Harvested → Harvested
  unfolding harvest_doc
  harvest_all [] done = done
  harvest_all (doc ∷ docs) done = harvest_all docs (harvest_doc doc done)

  -- `harvest`
  unfoldable pub harvest : List RawDocument → Harvested
  unfolding harvest_all
  harvest docs = harvest_all docs ([], record { documents = 0; parsed = 0; failed = 0 })
