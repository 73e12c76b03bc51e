-- ===== src/Parsers/Vmess.antt =====
-- parsers/vmess.py
use weronity_vpn.Prelude.{
  String, Bool, false, Option, none, some, [], ◌∷◌, not, ◌==◌, if◌then◌else◌,
}
use weronity_vpn.Prelude.Dict.{Dict, lookup}
use weronity_vpn.Prelude.Text.{one_of, drop_chars, strip}
use weronity_vpn.Prelude.Value.{
  to_dict, Value, int, str, arr, obj, Runtime, texts, to_str, to_int, or_value, get_or, get,
}
use weronity_vpn.Prelude.Result.{Result, ok, err, parse_error, ◌>>=◌, ◌>>◌, or_raise}
use weronity_vpn.Models.{ParsedNode, Transport, tcp, ws, grpc, httpupgrade, h2, vmess}
use weronity_vpn.Parsers.Url.{Codec}
use weronity_vpn.Parsers.Common.{
  require, split_name, as_int, csv_list, or_none, without_blanks, node_of, prepare_base64,
}
use weronity_vpn.Parsers.Tuic.{or_text}
use text.Mathlib.Text.{starts_with}

-- `_NET_MAP`; the nets that sing-box does not speak are in no entry, and are refused like unknown ones
unfoldable pub vmess_net : String → Option Transport
unfolding one_of
vmess_net net =
    if one_of net ("tcp" ∷ "raw" ∷ [])
    then some tcp
    else if one_of net ("ws" ∷ "websocket" ∷ [])
    then some ws
    else if one_of net ("grpc" ∷ "gun" ∷ [])
    then some grpc
    else if one_of net ("h2" ∷ "http" ∷ [])
    then some h2
    else if net == "httpupgrade"
    then some httpupgrade
    else none

-- `isinstance(obj, dict)`
abbrev pub object : Value → Result (Dict Value)
object (obj fs) = ok (to_dict fs)
object _ = err parse_error

module _ ⦃py : Runtime⦄ (codec : Codec) where
  -- `str(obj.get(k) or "")`
  unfoldable pub text_at : String → Dict Value → String
  unfolding get or_value to_str
  text_at k o = to_str (or_value (get k o) (str ""))

  unfoldable pub vmess_transport : Transport → Dict Value → Dict Value
  unfolding get or_value to_str text_at
  vmess_transport grpc o =
      (
        "service_name",
        str (to_str (or_value (or_value (get "path" o) (get "serviceName" o)) (str ""))),
      )
      ∷ []
  vmess_transport ws o =
      ("path", str (to_str (or_value (get "path" o) (str "/"))))
      ∷ ("host_header", or_none (text_at "host" o))
      ∷ []
  vmess_transport httpupgrade o =
      ("path", str (to_str (or_value (get "path" o) (str "/"))))
      ∷ ("host_header", or_none (text_at "host" o))
      ∷ []
  vmess_transport h2 o =
      ("path", str (to_str (or_value (get "path" o) (str "/"))))
      ∷ ("host_header", or_none (text_at "host" o))
      ∷ []
  vmess_transport _ o = []

  -- The last `elif` of the branches by transport.
  unfoldable pub vmess_obfuscation : Transport → Dict Value → Bool
  unfolding text_at
  vmess_obfuscation tcp o = text_at "type" o == "http"
  vmess_obfuscation _ o = false

  unfoldable pub vmess_params : String → Transport → Dict Value → Dict Value
  unfolding get get_or or_value to_str text_at as_int csv_list one_of vmess_transport
  vmess_params uuid transport o =
      let tls = py.lower (to_str (get_or (str "") "tls" o)) in
      ("uuid", str uuid)
      ∷ ("alter_id", int (as_int (get "aid" o)))
      ∷ ("cipher", str (to_str (or_value (get_or (str "auto") "scy" o) (str "auto"))))
      ∷ ("security", str (if one_of tls ("tls" ∷ "reality" ∷ "xtls" ∷ []) then "tls" else "none"))
      ∷ ("sni", or_none (or_text (text_at "host" o) (text_at "sni" o)))
      ∷ ("alpn", arr (texts (csv_list (text_at "alpn" o))))
      ∷ ("fingerprint", or_none (text_at "fp" o))
      ∷ vmess_transport transport o

  -- A port of `Infinity` raises an `OverflowError`: it stands with the `ParseError`s, which the
  -- only caller treats alike.
  unfoldable pub parse_vmess : String → Result ParsedNode
  unfolding split_name vmess_net vmess_params vmess_obfuscation without_blanks node_of drop_chars
      prepare_base64 to_dict get_or to_str to_int lookup strip text_at
  parse_vmess uri = do
    let (body, name) = split_name codec uri
    require (starts_with body "vmess://")
    payload ← or_raise parse_error (codec.base64_json (prepare_base64 (drop_chars 8 body)))
    o ← object payload
    let host = strip (to_str (get_or (str "") "add" o))
    require (not (host == ""))
    port_value ← or_raise parse_error (lookup "port" o)
    port ← or_raise parse_error (to_int port_value)
    let uuid = strip (to_str (get_or (str "") "id" o))
    require (not (uuid == ""))
    transport ← or_raise parse_error (vmess_net (py.lower (to_str (get_or (str "tcp") "net" o))))
    require (not (vmess_obfuscation transport o))
    ok (
        node_of vmess transport host port uuid (or_text name (strip (text_at "ps" o))) uri
          (without_blanks (vmess_params uuid transport o)))
