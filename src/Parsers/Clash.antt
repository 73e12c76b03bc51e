-- ===== src/Parsers/Clash.antt =====
-- parsers/clash.py: the nodes of a Clash configuration. What `yaml.safe_load` makes of a text is a
-- parameter; a mapping keeps its entries with text keys, and a date is kept like a float, by its text.
use weronity_vpn.Prelude.{
  String, ◌<>◌, Char, code, Bool, true, false, Option, none, some, List, [], ◌∷◌, ◌++◌, ◌||◌, not,
  ◌==◌, eqb, if◌then◌else◌,
}
use weronity_vpn.Prelude.Int.{pos}
use weronity_vpn.Prelude.Dict.{Dict, lookup}
use weronity_vpn.Prelude.Text.{strip, strip_right, one_of, show}
use weronity_vpn.Prelude.Value.{
  to_dict, Value, null, bool, int, str, arr, obj, Items, nil, cons, Fields, end, field, Runtime,
  truthy, or_value, to_str, to_int, parse_int, get, get_or, texts,
}
use weronity_vpn.Prelude.Result.{Result, ok, err, parse_error, type_error, ◌>>=◌, ◌>>◌, or_raise}
use weronity_vpn.Models.{
  ParsedNode, Protocol, Transport, vless, vmess, trojan, hysteria2, shadowsocks, tuic, shadowtls,
  tcp, ws, grpc, httpupgrade, h2, quic, protocol_name, is_quic,
}
use weronity_vpn.Parsers.Common.{require, as_int, without_blanks}
use weronity_vpn.Parsers.Registry.{is_port}

-- `_TYPE_MAP`
unfoldable pub clash_type : String → Option Protocol
unfolding one_of
clash_type t =
    if t == "vless"
    then some vless
    else if t == "vmess"
    then some vmess
    else if t == "trojan"
    then some trojan
    else if one_of t ("ss" ∷ "shadowsocks" ∷ [])
    then some shadowsocks
    else if one_of t ("hysteria2" ∷ "hy2" ∷ [])
    then some hysteria2
    else if t == "tuic"
    then some tuic
    else none

-- `_NET_MAP.get(net, "tcp")`
unfoldable pub clash_net : String → Transport
unfolding one_of
clash_net net =
    if net == "ws"
    then ws
    else if net == "grpc"
    then grpc
    else if one_of net ("h2" ∷ "http" ∷ [])
    then h2
    else if net == "httpupgrade"
    then httpupgrade
    else tcp

-- `_as_dict`
unfoldable pub dict_or_empty : Value → Dict Value
unfolding to_dict
dict_or_empty (obj fs) = to_dict fs
dict_or_empty _ = []

abbrev pub is_empty : Dict Value → Bool
is_empty [] = true
is_empty (_ ∷ _) = false

module _ ⦃py : Runtime⦄ where
  item_texts : Items → List String
  unfolding to_str
  item_texts nil = []
  item_texts (cons v vs) = to_str v ∷ item_texts vs

  key_texts : Fields → List String
  key_texts end = []
  key_texts (field k v fs) = k ∷ key_texts fs

  -- `_as_list`; a number or a boolean cannot be iterated over
  unfoldable pub text_list : Value → Result (List String)
  unfolding item_texts key_texts
  text_list null = ok []
  text_list (str s) = ok (s ∷ [])
  text_list (arr vs) = ok (item_texts vs)
  text_list (obj fs) = ok (key_texts fs)
  text_list _ = err type_error

  -- `_int`
  unfoldable pub speed : Value → Value
  unfolding to_str strip strip_right parse_int
  speed v =
      let in_unit : Char → Bool = λ c.
        eqb (code c) b' '
        || (eqb (code c) b'M' || (eqb (code c) b'b' || (eqb (code c) b'p' || eqb (code c) b's'))) in
      elim (parse_int (strip (strip_right in_unit (to_str v)))) [ none ↦ null | some z ↦ int z ]

  -- The entries of the transport.
  unfoldable pub clash_transport : Transport → Dict Value → Dict Value
  unfolding dict_or_empty get get_or or_value
  clash_transport ws px =
      let opts = dict_or_empty (get "ws-opts" px) in
      let headers = dict_or_empty (get "headers" opts) in
      ("path", get_or (str "/") "path" opts)
      ∷ ("host_header", or_value (or_value (get "Host" headers) (get "host" headers)) null)
      ∷ []
  clash_transport grpc px =
      ("service_name", get_or (str "") "grpc-service-name" (dict_or_empty (get "grpc-opts" px)))
      ∷ []
  clash_transport _ px = []

  -- `str(px.get(k, ""))`
  abbrev pub text_of : String → Dict Value → String
  text_of k px = to_str (get_or (str "") k px)

  -- The branches by protocol: the authentication, and the entries.
  unfoldable pub clash_credentials : Protocol → Dict Value → Result (String × Dict Value)
  unfolding get get_or or_value to_str truthy as_int speed
  clash_credentials vless px =
      let auth = text_of "uuid" px in
      ok (
        auth,
        ("uuid", str auth) ∷ (if truthy (get "flow" px) then ("flow", get "flow" px) ∷ [] else []),
      )
  clash_credentials vmess px =
      let auth = text_of "uuid" px in
      ok (
        auth,
        ("uuid", str auth)
            ∷ ("alter_id", int (as_int (get_or (get_or (int (pos 0)) "alter-id" px) "alterId" px)))
            ∷ ("cipher", str (to_str (or_value (get_or (str "auto") "cipher" px) (str "auto"))))
            ∷ [],
      )
  clash_credentials trojan px =
      let auth = text_of "password" px in ok (auth, ("password", str auth) ∷ [])
  clash_credentials shadowsocks px =
      let method = text_of "cipher" px in
      let password = text_of "password" px in
      ok (method <> ":" <> password, ("method", str method) ∷ ("password", str password) ∷ [])
  clash_credentials hysteria2 px =
      let auth = text_of "password" px in
      let obfs =
        if truthy (get "obfs" px)
        then ("obfs", str "salamander")
          ∷ ("obfs_password", or_value (get "obfs-password" px) (get "obfs-param" px))
          ∷ []
        else [] in
      ok (
        auth,
        ("password", str auth)
            ∷ (obfs
                ++ ("up_mbps", speed (get "up" px)) ∷ ("down_mbps", speed (get "down" px)) ∷ []),
      )
  clash_credentials tuic px =
      let uuid = text_of "uuid" px in
      let password = text_of "password" px in
      ok (
        uuid <> ":" <> password,
        ("uuid", str uuid)
            ∷ ("password", str password)
            ∷ ("congestion_control", get_or (str "bbr") "congestion-controller" px)
            ∷ ("udp_relay_mode", get_or (str "native") "udp-relay-mode" px)
            ∷ [],
      )
  clash_credentials shadowtls px = err parse_error

  -- `protocol in ("hysteria2", "tuic", "trojan")`
  abbrev pub always_tls : Protocol → Bool
  always_tls hysteria2 = true
  always_tls tuic = true
  always_tls trojan = true
  always_tls _ = false

  -- The entries that every protocol has.
  unfoldable pub clash_base : Protocol → List String → Dict Value → Dict Value
  unfolding dict_or_empty get get_or or_value truthy
  clash_base protocol alpn px =
      let reality = dict_or_empty (get "reality-opts" px) in
      let tls_on = truthy (get "tls" px) || always_tls protocol in
      (
        "security",
        str (if not (is_empty reality) then "reality" else if tls_on then "tls" else "none"),
      )
      ∷ ("sni", or_value (or_value (get "sni" px) (get "servername" px)) null)
      ∷ ("alpn", arr (texts alpn))
      ∷ ("fingerprint", or_value (get "client-fingerprint" px) null)
      ∷ ("allow_insecure", bool (truthy (get "skip-cert-verify" px)))
      ∷ (if is_empty reality
          then []
          else ("public_key", get_or (str "") "public-key" reality)
            ∷ ("short_id", get_or (str "") "short-id" reality)
            ∷ [])

  -- `_one`
  unfoldable pub one_proxy : Dict Value → Result ParsedNode
  unfolding clash_type clash_net text_list clash_transport clash_credentials clash_base
      without_blanks is_port get get_or or_value to_str to_int lookup strip show protocol_name
      is_quic
  one_proxy px = do
    protocol ← or_raise parse_error (clash_type (py.lower (text_of "type" px)))
    let server = strip (text_of "server" px)
    require (not (server == ""))
    port_value ← or_raise parse_error (lookup "port" px)
    port ← or_raise parse_error (to_int port_value)
    require (is_port port)
    let place = server <> ":" <> show port
    let net = clash_net (py.lower (to_str (get_or (str "tcp") "network" px)))
    let network = if is_quic protocol then quic else net
    alpn ← text_list (get "alpn" px)
    (auth, entries) ← clash_credentials protocol px
    ok (record {
      protocol = protocol;
      transport = network;
      endpoint = record { host = server; port = port; resolved_ip = none };
      auth = auth;
      tag = to_str (or_value (get "name" px) (str place));
      raw_uri = "clash://" <> protocol_name protocol <> "/" <> place;
      params =
          without_blanks (clash_base protocol alpn px ++ (clash_transport network px ++ entries));
      source = "";
      source_file = "";
    })

  -- The loop over the proxies: one that is no mapping, or fails, is passed over.
  unfoldable pub proxies_of : Items → List ParsedNode
  unfolding one_proxy to_dict
  proxies_of nil = []
  proxies_of (cons (obj fs) vs) =
      let rest = proxies_of vs in elim (one_proxy (to_dict fs)) [ err e ↦ rest | ok n ↦ n ∷ rest ]
  proxies_of (cons _ vs) = proxies_of vs

  -- `for px in proxies`: the characters of a text and the keys of a mapping are no mappings.
  unfoldable pub iterate : Value → Result Items
  iterate (arr vs) = ok vs
  iterate (str s) = ok nil
  iterate (obj fs) = ok nil
  iterate _ = err type_error

  -- `doc.get("proxies")` of a mapping that has them
  abbrev pub proxies_value : Value → Result Value
  proxies_value (obj fs) = or_raise parse_error (lookup "proxies" (to_dict fs))
  proxies_value _ = err parse_error

  -- `parse_clash`
  unfoldable pub parse_clash : (String → Option Value) → String → Result (List ParsedNode)
  unfolding to_dict lookup or_value iterate proxies_of
  parse_clash yaml text = do
    doc ← or_raise parse_error (yaml text)
    proxies ← proxies_value doc
    items ← iterate (or_value proxies (arr nil))
    ok (proxies_of items)
