-- ===== src/Parsers/Registry.antt =====
-- parsers/__init__.py: the dispatch on the scheme, and the candidate URIs of a text
use weronity_vpn.Prelude.{
  String, Char, code, Bool, false, Option, none, some, List, [], ◌∷◌, ◌&&◌, ◌||◌, ◌==◌,
  if◌then◌else◌, leb, eqb,
}
use weronity_vpn.Prelude.Int.{ℤ, pos, negsuc}
use weronity_vpn.Prelude.Text.{cut, strip, one_of, split_by}
use weronity_vpn.Prelude.Value.{Runtime}
use weronity_vpn.Prelude.Result.{Result, ok, err, parse_error, ◌>>=◌, ◌>>◌, or_raise}
use weronity_vpn.Models.{ParsedNode}
use weronity_vpn.Parsers.Url.{Codec}
use weronity_vpn.Parsers.Common.{require}
use weronity_vpn.Parsers.Vless.{parse_vless}
use weronity_vpn.Parsers.Vmess.{parse_vmess}
use weronity_vpn.Parsers.Trojan.{parse_trojan}
use weronity_vpn.Parsers.Hysteria2.{parse_hysteria2}
use weronity_vpn.Parsers.Shadowsocks.{parse_shadowsocks}
use weronity_vpn.Parsers.Tuic.{parse_tuic}
use text.Mathlib.Text.{starts_with}

-- `SUPPORTED_SCHEMES`
abbrev pub supported_schemes : List String
supported_schemes = "vless" ∷ "vmess" ∷ "trojan" ∷ "hysteria2" ∷ "hy2" ∷ "ss" ∷ "tuic" ∷ []

-- `1 <= port <= 65535`
unfoldable pub is_port : ℤ → Bool
is_port (pos n) = leb 1 n && leb n 65535
is_port (negsuc n) = false

-- `str.splitlines`, but for the empty line that this reads inside of `\r\n` and at the end of a text:
-- empty lines are skipped.
unfoldable pub is_line_break : Char → Bool
is_line_break c =
    let n = code c in
    (leb 10 n && leb n 13) || (leb 28 n && leb n 30) || eqb n 133 || eqb n 8232 || eqb n 8233

unfoldable pub lines : String → List String
unfolding split_by is_line_break
lines = split_by is_line_break

module _ ⦃py : Runtime⦄ where
  unfoldable pub scheme_of : String → Option String
  unfolding cut strip
  scheme_of uri = elim (cut "://" uri) [
    | none ↦ none
    | some (head, _) ↦ some (strip (py.lower head))
  ]

  -- `scheme_of(line) in SUPPORTED_SCHEMES`
  unfoldable pub is_supported : String → Bool
  unfolding scheme_of one_of
  is_supported line = elim (scheme_of line) [ none ↦ false | some s ↦ one_of s supported_schemes ]

  -- The loop of `iter_uris`, for a list of lines.
  unfoldable pub candidates : List String → List String
  unfolding strip is_supported
  candidates [] = []
  candidates (raw ∷ rest) =
      let out = candidates rest in
      let line = strip raw in
      if line == "" || starts_with line "#" || starts_with line "//"
      then out
      else if is_supported line
      then line ∷ out
      else out

  unfoldable pub iter_uris : String → List String
  unfolding lines candidates
  iter_uris text = candidates (lines text)

module _ ⦃py : Runtime⦄ (codec : Codec) where
  -- `REGISTRY.get(scheme)`, applied
  unfoldable pub parse_as : String → String → Result ParsedNode
  unfolding parse_vless parse_vmess parse_trojan parse_hysteria2 parse_shadowsocks parse_tuic
  parse_as scheme uri =
      if scheme == "vless"
      then parse_vless codec uri
      else if scheme == "vmess"
      then parse_vmess codec uri
      else if scheme == "trojan"
      then parse_trojan codec uri
      else if scheme == "hysteria2" || scheme == "hy2"
      then parse_hysteria2 codec uri
      else if scheme == "ss"
      then parse_shadowsocks codec uri
      else if scheme == "tuic"
      then parse_tuic codec uri
      else err parse_error

  unfoldable pub parse_uri : String → Result ParsedNode
  unfolding scheme_of strip parse_as is_port
  parse_uri uri = do
    scheme ← or_raise parse_error (scheme_of uri)
    node ← parse_as scheme (strip uri)
    require (is_port node.endpoint.port)
    ok node
