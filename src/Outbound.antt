-- ===== src/Outbound.antt =====
-- outbound.py: the sing-box outbound of a node. A missing credential is the `KeyError` of `p[...]`.
-- The proofs are in the modules below.
pub mod Shape
pub mod Credentials
use weronity_vpn.Prelude.{
  String, Char, Bool, true, false, Option, none, some, List, [], ◌∷◌, ◌&&◌, not, ◌==◌,
  if◌then◌else◌,
}
use weronity_vpn.Prelude.Int.{pos}
use weronity_vpn.Prelude.Dict.{Dict, lookup, has, insert}
use weronity_vpn.Prelude.Value.{
  fields, dict, Value, null, bool, int, float, str, arr, obj, Items, nil, cons, Fields, end, field,
  Runtime, truthy, or_value, to_int, get, get_or,
}
use weronity_vpn.Prelude.Result.{
  Result, ok, err, key_error, value_error, type_error, ◌>>=◌, or_raise,
}
use weronity_vpn.Models.{
  ParsedNode, Protocol, vless, vmess, trojan, hysteria2, shadowsocks, tuic, shadowtls, tcp, ws,
  grpc, httpupgrade, h2, mkcp, quic, Security, reality, tls, plain, security, is_quic,
}

-- `if test: d[k] = v`
abbrev pub put_if : Bool → String → Value → Dict Value → Dict Value
put_if test k v d = if test then insert k v d else d

characters : String → Items
characters String.[] = nil
characters (String.◌∷◌ c s) = cons (str (String.◌∷◌ c String.[])) (characters s)

keys : Fields → Items
keys end = nil
keys (field k v fs) = cons (str k) (keys fs)

-- `list(v)`
unfoldable pub list_of : Value → Result Value
unfolding characters keys
list_of (arr xs) = ok (arr xs)
list_of (str s) = ok (arr (characters s))
list_of (obj fs) = ok (arr (keys fs))
list_of _ = err type_error

-- `if alpn: tls["alpn"] = list(alpn)`
unfoldable pub put_alpn : Value → Dict Value → Result (Dict Value)
unfolding truthy list_of insert
put_alpn alpn d = if truthy alpn then (do l ← list_of alpn; ok (insert "alpn" l d)) else ok d

-- `p[k]`
abbrev pub item : String → Dict Value → Result Value
item k p = or_raise key_error (lookup k p)

abbrev pub is_plain : Security → Bool
is_plain plain = true
is_plain _ = false

abbrev pub is_reality : Security → Bool
is_reality reality = true
is_reality _ = false

-- `v == "salamander"`
abbrev pub is_salamander : Value → Bool
is_salamander (str s) = s == "salamander"
is_salamander _ = false

abbrev utls : Value → Value
utls fp = dict (("enabled", bool true) ∷ ("fingerprint", fp) ∷ [])

module _ ⦃py : Runtime⦄ where
  reality_block : Dict Value → Dict Value
  unfolding get get_or truthy insert
  reality_block p =
      put_if (truthy (get "short_id" p)) "short_id" (get "short_id" p)
        (("enabled", bool true) ∷ ("public_key", get_or (str "") "public_key" p) ∷ [])

  -- The part of `_tls_block` for Reality.
  put_reality : Security → Dict Value → Dict Value → Dict Value
  unfolding get or_value has insert reality_block
  put_reality sec p d =
      let d' = insert "reality" (dict (reality_block p)) d in
      if is_reality sec
      then put_if (not (has "utls" d')) "utls"
          (utls (or_value (get "fingerprint" p) (str "chrome"))) d'
      else d

  -- The entries of a TLS block before and after its ALPN list.
  unfoldable pub tls_names : Dict Value → Dict Value
  unfolding get truthy insert
  tls_names p =
      put_if (truthy (get "allow_insecure" p)) "insecure" (bool true)
        (put_if (truthy (get "sni" p)) "server_name" (get "sni" p) (("enabled", bool true) ∷ []))

  unfoldable pub tls_keys : Security → Dict Value → Dict Value → Dict Value
  unfolding get truthy insert put_reality
  tls_keys sec p d =
      put_reality sec p
        (put_if (truthy (get "fingerprint" p)) "utls" (utls (get "fingerprint" p)) d)

  -- `_tls_block`
  unfoldable pub tls_block : ParsedNode → Result (Option (Dict Value))
  unfolding get put_alpn tls_names tls_keys
  tls_block n = if is_plain (security n) && not (is_quic n.protocol) then ok none else do
    d ← put_alpn (get "alpn" n.params) (tls_names n.params)
    ok (some (tls_keys (security n) n.params d))

-- `_transport_block`
unfoldable pub transport_block : ParsedNode → Option (Dict Value)
unfolding get get_or truthy insert
transport_block n =
    let p = n.params in
    let host = get "host_header" p in
    let path = get_or (str "/") "path" p in
    elim n.transport [
      | ws ↦ some (
          put_if (truthy host) "headers" (dict (("Host", host) ∷ []))
            (("type", str "ws") ∷ ("path", path) ∷ []))
      | grpc ↦ some (("type", str "grpc") ∷ ("service_name", get_or (str "") "service_name" p) ∷ [])
      | httpupgrade ↦
          some
            (put_if (truthy host) "host" host (("type", str "httpupgrade") ∷ ("path", path) ∷ []))
      | h2 ↦ some (
          put_if (truthy host) "host" (arr (cons host nil))
            (("type", str "http") ∷ ("path", path) ∷ []))
      | _ ↦ none
    ]

abbrev pub put_some : String → Option (Dict Value) → Dict Value → Dict Value
put_some k none ob = ob
put_some k (some d) ob = insert k (dict d) ob

-- `_base`
unfoldable pub base : ParsedNode → Dict Value
base n =
    ("tag", str n.tag) ∷ ("server", str n.endpoint.host) ∷ ("server_port", int n.endpoint.port) ∷ []

-- The Salamander block of a Hysteria2 node.
unfoldable pub put_obfs : Dict Value → Dict Value → Dict Value
unfolding get get_or insert
put_obfs p ob =
    put_if (is_salamander (get "obfs" p)) "obfs"
      (dict (("type", str "salamander") ∷ ("password", get_or (str "") "obfs_password" p) ∷ [])) ob

module _ ⦃py : Runtime⦄ where
  -- `if p.get(k): ob[k] = int(p[k])`
  unfoldable pub put_int : String → Dict Value → Dict Value → Result (Dict Value)
  unfolding get truthy to_int insert
  put_int k p ob =
      if truthy (get k p)
      then (do z ← or_raise value_error (to_int (get k p)); ok (insert k (int z) ob))
      else ok ob

  -- The branches of `build_outbound` by protocol.
  unfoldable pub credentials : Protocol → Dict Value → Dict Value → Result (Dict Value)
  unfolding get get_or truthy to_int insert lookup put_int put_obfs
  credentials vless p ob = do
    uuid ← item "uuid" p
    let ob' = insert "uuid" uuid (insert "type" (str "vless") ob)
    ok (
        insert "packet_encoding" (str "xudp")
          (put_if (truthy (get "flow" p)) "flow" (get "flow" p) ob'))
  credentials vmess p ob = do
    uuid ← item "uuid" p
    alter_id ← or_raise value_error (to_int (get_or (int (pos 0)) "alter_id" p))
    let ob' = insert "uuid" uuid (insert "type" (str "vmess") ob)
    ok (insert "security" (get_or (str "auto") "cipher" p) (insert "alter_id" (int alter_id) ob'))
  credentials trojan p ob = do
    password ← item "password" p
    ok (insert "password" password (insert "type" (str "trojan") ob))
  credentials shadowsocks p ob = do
    method ← item "method" p
    password ← item "password" p
    ok (insert "password" password (insert "method" method (insert "type" (str "shadowsocks") ob)))
  credentials hysteria2 p ob = do
    password ← item "password" p
    ob1 ← put_int "up_mbps" p (insert "password" password (insert "type" (str "hysteria2") ob))
    ob2 ← put_int "down_mbps" p ob1
    ok (put_obfs p ob2)
  credentials tuic p ob = do
    uuid ← item "uuid" p
    password ← item "password" p
    let ob' = insert "password" password (insert "uuid" uuid (insert "type" (str "tuic") ob))
    let ob'' = insert "congestion_control" (get_or (str "bbr") "congestion_control" p) ob'
    ok (insert "udp_relay_mode" (get_or (str "native") "udp_relay_mode" p) ob'')
  credentials shadowtls p ob = err value_error

  -- `build_outbound`
  unfoldable pub build_outbound : ParsedNode → Result (Dict Value)
  unfolding base credentials tls_block transport_block insert
  build_outbound n = do
    ob ← credentials n.protocol n.params (base n)
    secured ← tls_block n
    ok (put_some "transport" (transport_block n) (put_some "tls" secured ob))
