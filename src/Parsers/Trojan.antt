-- ===== src/Parsers/Trojan.antt =====
-- parsers/trojan.py
use weronity_vpn.Prelude.{String, Option, none, some, [], ◌∷◌, not, ◌==◌, if◌then◌else◌}
use weronity_vpn.Prelude.Int.{pos}
use weronity_vpn.Prelude.Dict.{Dict}
use weronity_vpn.Prelude.Text.{cut, one_of, drop_chars}
use weronity_vpn.Prelude.Value.{Value, bool, str, arr, Runtime, texts}
use weronity_vpn.Prelude.Result.{Result, ok, parse_error, ◌>>=◌, ◌>>◌, or_raise}
use weronity_vpn.Models.{ParsedNode, Transport, tcp, ws, grpc, httpupgrade, h2, trojan}
use weronity_vpn.Parsers.Url.{Codec, flat_qs, before, behind}
use weronity_vpn.Parsers.Common.{
  require, split_name, split_userinfo_host, first, first_or, get_text, get_nonempty, as_bool,
  csv_list, or_none, without_blanks, node_of,
}
use weronity_vpn.Parsers.Vless.{transport_params}
use text.Mathlib.Text.{starts_with}

-- `_NET_MAP`
unfoldable pub trojan_net : String → Option Transport
unfolding one_of
trojan_net net =
    if one_of net ("" ∷ "tcp" ∷ "raw" ∷ "original" ∷ [])
    then some tcp
    else if one_of net ("ws" ∷ "websocket" ∷ [])
    then some ws
    else if one_of net ("grpc" ∷ "gun" ∷ [])
    then some grpc
    else if one_of net ("http" ∷ "h2" ∷ [])
    then some h2
    else if net == "httpupgrade"
    then some httpupgrade
    else none

module _ ⦃py : Runtime⦄ (codec : Codec) where
  unfoldable pub trojan_params : String → String → Transport → Dict String → Dict Value
  unfolding first_or get_text get_nonempty as_bool csv_list transport_params
  trojan_params password host transport q =
      let sni = first q ("sni" ∷ "peer" ∷ "servername" ∷ []) in
      ("password", str password)
      ∷ ("security", str (py.lower (get_nonempty "tls" "security" q)))
      ∷ ("sni", str (if sni == "" then host else sni))
      ∷ ("alpn", arr (texts (csv_list (get_text "" "alpn" q))))
      ∷ ("fingerprint", or_none (first q ("fp" ∷ [])))
      ∷ (
        "allow_insecure",
        bool (as_bool (get_nonempty (get_text "" "insecure" q) "allowInsecure" q)),
      )
      ∷ transport_params transport q

  unfoldable pub parse_trojan : String → Result ParsedNode
  unfolding split_name cut split_userinfo_host flat_qs trojan_net trojan_params without_blanks
      node_of drop_chars first_or get_text get_nonempty
  parse_trojan uri = do
    let (body, name) = split_name codec uri
    require (starts_with body "trojan://")
    let rest = drop_chars 9 body
    let parts = cut "?" rest
    (password, host, port) ← split_userinfo_host codec (before rest parts)
    require (not (password == ""))
    let q = flat_qs codec (behind parts)
    transport ← or_raise parse_error (trojan_net (py.lower (get_nonempty "tcp" "type" q)))
    ok (
        node_of trojan transport host (pos port) password name uri
          (without_blanks (trojan_params password host transport q)))
