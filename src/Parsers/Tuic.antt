-- ===== src/Parsers/Tuic.antt =====
-- parsers/tuic.py
use weronity_vpn.Prelude.{String, ◌<>◌, [], ◌∷◌, ◌==◌, if◌then◌else◌}
use weronity_vpn.Prelude.Int.{pos}
use weronity_vpn.Prelude.Dict.{Dict}
use weronity_vpn.Prelude.Text.{cut, drop_chars, contains}
use weronity_vpn.Prelude.Value.{Value, bool, str, arr, Runtime, texts}
use weronity_vpn.Prelude.Result.{Result, ok, value_error, ◌>>=◌, ◌>>◌, or_raise}
use weronity_vpn.Models.{ParsedNode, quic, tuic}
use weronity_vpn.Parsers.Url.{Codec, flat_qs, before, behind}
use weronity_vpn.Parsers.Common.{
  require, split_name, split_userinfo_host, first, first_or, get_text, get_nonempty, as_bool,
  or_none, without_blanks, node_of,
}
use weronity_vpn.Parsers.Hysteria2.{alpn_or_h3}
use text.Mathlib.Text.{starts_with}

-- `text or default`
abbrev pub or_text : String → String → String
or_text default text = if text == "" then default else text

module _ ⦃py : Runtime⦄ (codec : Codec) where
  unfoldable pub tuic_params : String → String → Dict String → Dict Value
  unfolding first_or get_text get_nonempty as_bool alpn_or_h3
  tuic_params uuid password q =
      ("uuid", str uuid)
      ∷ ("password", str password)
      ∷ ("security", str "tls")
      ∷ ("sni", or_none (first q ("sni" ∷ "peer" ∷ "servername" ∷ [])))
      ∷ ("alpn", arr (texts (alpn_or_h3 q)))
      ∷ (
        "congestion_control",
        str (or_text "bbr" (first q ("congestion_control" ∷ "congestion-control" ∷ []))),
      )
      ∷ (
        "udp_relay_mode",
        str (or_text "native" (first q ("udp_relay_mode" ∷ "udp-relay-mode" ∷ []))),
      )
      ∷ (
        "allow_insecure",
        bool (as_bool (get_nonempty (get_text "" "insecure" q) "allow_insecure" q)),
      )
      ∷ []

  -- The user part is decoded a second time here, and the unpacking of a text without `:` raises.
  unfoldable pub parse_tuic : String → Result ParsedNode
  unfolding split_name cut split_userinfo_host flat_qs tuic_params without_blanks node_of drop_chars
      contains
  parse_tuic uri = do
    let (body, name) = split_name codec uri
    require (starts_with body "tuic://")
    let rest = drop_chars 7 body
    let parts = cut "?" rest
    (userinfo, host, port) ← split_userinfo_host codec (before rest parts)
    require (contains ":" userinfo)
    (uuid, password) ← or_raise value_error (cut ":" (codec.unquote userinfo))
    let q = flat_qs codec (behind parts)
    ok (
        node_of tuic quic host (pos port) (uuid <> ":" <> password) name uri
          (without_blanks (tuic_params uuid password q)))
