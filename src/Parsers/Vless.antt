-- ===== src/Parsers/Vless.antt =====
-- parsers/vless.py
use weronity_vpn.Prelude.{
  String, Bool, false, Option, none, some, [], ◌∷◌, ◌&&◌, not, ◌==◌, if◌then◌else◌, ◌++◌,
}
use weronity_vpn.Prelude.Int.{pos}
use weronity_vpn.Prelude.Dict.{Dict}
use weronity_vpn.Prelude.Text.{cut, one_of, drop_chars}
use weronity_vpn.Prelude.Value.{Value, bool, str, arr, Runtime, texts}
use weronity_vpn.Prelude.Result.{Result, ok, parse_error, ◌>>=◌, ◌>>◌, or_raise}
use weronity_vpn.Models.{ParsedNode, Transport, tcp, ws, grpc, httpupgrade, h2, vless}
use weronity_vpn.Parsers.Url.{Codec, flat_qs, before, behind}
use weronity_vpn.Parsers.Common.{
  require, split_name, split_userinfo_host, first, first_or, get_text, get_nonempty, as_bool,
  csv_list, or_none, without_blanks, node_of,
}
use text.Mathlib.Text.{starts_with}

-- `_NET_MAP`; the nets that sing-box does not speak are in no entry, and are refused like unknown ones
unfoldable pub vless_net : String → Option Transport
unfolding one_of
vless_net net =
    if one_of net ("tcp" ∷ "raw" ∷ [])
    then some tcp
    else if one_of net ("ws" ∷ "websocket" ∷ [])
    then some ws
    else if one_of net ("grpc" ∷ "gun" ∷ [])
    then some grpc
    else if one_of net ("http" ∷ "h2" ∷ "h2mux" ∷ [])
    then some h2
    else if net == "httpupgrade"
    then some httpupgrade
    else none

unfoldable pub unsupported_net : String → Bool
unfolding one_of
unsupported_net net = one_of net ("xhttp" ∷ "splithttp" ∷ "kcp" ∷ "mkcp" ∷ "quic" ∷ [])

-- The parameters that a transport has: those of the three that have a path, or of gRPC.
unfoldable pub transport_params : Transport → Dict String → Dict Value
unfolding first_or
transport_params grpc q = ("service_name", str (first q ("serviceName" ∷ "servicename" ∷ []))) ∷ []
transport_params ws q =
    ("path", str (first_or "/" q ("path" ∷ [])))
    ∷ ("host_header", or_none (first q ("host" ∷ [])))
    ∷ []
transport_params httpupgrade q =
    ("path", str (first_or "/" q ("path" ∷ [])))
    ∷ ("host_header", or_none (first q ("host" ∷ [])))
    ∷ []
transport_params h2 q =
    ("path", str (first_or "/" q ("path" ∷ [])))
    ∷ ("host_header", or_none (first q ("host" ∷ [])))
    ∷ []
transport_params _ q = []

-- The last `elif` of the branches by transport.
unfoldable pub http_obfuscation : Transport → Dict String → Bool
unfolding get_text
http_obfuscation tcp q = get_text "" "headerType" q == "http"
http_obfuscation _ q = false

module _ ⦃py : Runtime⦄ (codec : Codec) where
  unfoldable pub vless_params : String → String → Transport → Dict String → Dict Value
  unfolding first_or get_text get_nonempty as_bool csv_list transport_params
  vless_params uuid security transport q =
      ("uuid", str uuid)
      ∷ ("encryption", str (get_text "none" "encryption" q))
      ∷ ("security", str security)
      ∷ ("flow", or_none (first q ("flow" ∷ [])))
      ∷ ("sni", or_none (first q ("sni" ∷ "peer" ∷ "servername" ∷ [])))
      ∷ ("alpn", arr (texts (csv_list (get_text "" "alpn" q))))
      ∷ ("fingerprint", or_none (first q ("fp" ∷ [])))
      ∷ (
        "allow_insecure",
        bool (as_bool (get_nonempty (get_text "" "insecure" q) "allowInsecure" q)),
      )
      ∷ ((if security == "reality"
            then ("public_key", str (first q ("pbk" ∷ [])))
              ∷ ("short_id", str (first q ("sid" ∷ [])))
              ∷ []
            else [])
          ++ transport_params transport q)

  unfoldable pub parse_vless : String → Result ParsedNode
  unfolding split_name cut split_userinfo_host flat_qs vless_net unsupported_net vless_params
      without_blanks node_of drop_chars first_or get_text get_nonempty http_obfuscation
  parse_vless uri = do
    let (body, name) = split_name codec uri
    require (starts_with body "vless://")
    let rest = drop_chars 8 body
    let parts = cut "?" rest
    (uuid, host, port) ← split_userinfo_host codec (before rest parts)
    require (not (uuid == ""))
    let q = flat_qs codec (behind parts)
    let net = py.lower (get_text "tcp" "type" q)
    require (not (unsupported_net net))
    transport ← or_raise parse_error (vless_net net)
    let security = py.lower (get_nonempty "none" "security" q)
    require (not (security == "reality" && first q ("pbk" ∷ []) == ""))
    require (not (http_obfuscation transport q))
    ok (
        node_of vless transport host (pos port) uuid name uri
          (without_blanks (vless_params uuid security transport q)))
