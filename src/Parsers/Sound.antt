-- ===== src/Parsers/Sound.antt =====
-- The nodes that the parsers of URIs return have the parameters that the outbounds need.
use weronity_vpn.Prelude.{
  String, ◌<>◌, ◌≡◌, ◌≢◌, refl, Bool, true, false, [], ◌∷◌, ◌&&◌, not, ◌==◌, arith, All, eq_iff,
}
use weronity_vpn.Prelude.Int.{ℤ, pos}
use weronity_vpn.Prelude.Dict.{Dict, lookup, has}
use weronity_vpn.Prelude.Text.{one_of, cut, drop_chars, cut_last, contains, strip}
use weronity_vpn.Prelude.Value.{Value, str, Runtime, get_or, to_int, parse_int, to_str}
use weronity_vpn.Prelude.Result.{ok, parse_error, value_error, >>=-eq-ok, ok_inj, or_raise}
use weronity_vpn.Models.{
  ParsedNode, Protocol, Transport, quic, vless, vmess, trojan, hysteria2, tuic, shadowtls, is_quic,
}
use weronity_vpn.Outbound.Credentials.{needed, has_all}
use weronity_vpn.Parsers.Url.{Codec, flat_qs, before, behind}
use weronity_vpn.Parsers.Common.{
  require, split_name, prepare_base64, split_userinfo_host, is_blank, without_blanks, node_of,
  first, get_text, get_nonempty,
}
use weronity_vpn.Parsers.Trojan.{trojan_params, parse_trojan, trojan_net}
use weronity_vpn.Parsers.Hysteria2.{hysteria2_params, parse_hysteria2, hysteria2_rest}
use weronity_vpn.Parsers.Tuic.{tuic_params, parse_tuic, or_text}
use weronity_vpn.Parsers.Shadowsocks.{parse_shadowsocks, split_server}
use weronity_vpn.Parsers.Vmess.{
  vmess_params, parse_vmess, vmess_net, vmess_obfuscation, object, text_at,
}
use text.Mathlib.Text.{starts_with}
use weronity_vpn.Parsers.Vless.{
  vless_params, parse_vless, vless_net, unsupported_net, http_obfuscation,
}
use weronity_vpn.Parsers.Fits.{
  hysteria2_params-Fits, fits, Fits, Fits', without_blanks-Fits, vless_params-Fits,
  trojan_params-Fits, tuic_params-Fits, vmess_params-Fits,
}

module _ ⦃py : Runtime⦄ where
  has_first :
      (k s : String) (d : Dict Value)
      → not (s == "") ≡ true
      → has k (without_blanks ((k, str s) ∷ d)) ≡ true
  unfolding without_blanks is_blank has
  has_first k s d h = ground (arith, eq_iff k k)

  pub require-ok : (test : Bool) (e : Unit {0}) → require test ≡ ok e → test ≡ true
  require-ok true e h = refl
  require-ok false e h = cc

  and_true : (b : Bool) → b ≡ true → (b && true) ≡ true
  and_true b h = ground arith

  -- A node whose outbound can fail only for want of a credential.
  abbrev pub IsSound : ParsedNode → Type 0
  IsSound n =
      (n.protocol ≢ shadowtls)
      × All Fits' n.params
      × (is_quic n.protocol ≡ false → has_all (needed n.protocol) n.params ≡ true)

  module _ (codec : Codec) (t : Transport) (host : String) (port : ℤ) (name uri : String) where
    vless_node-IsSound :
        (uuid sec : String) (q : Dict String)
        → not (uuid == "") ≡ true
        → IsSound (
            node_of vless t host port uuid name uri
              (without_blanks (vless_params codec uuid sec t q)))
    unfolding node_of needed has_all vless_params
    vless_node-IsSound uuid sec q there = (
      (λ h. cc),
      without_blanks-Fits (vless_params codec uuid sec t q) (vless_params-Fits codec uuid sec t q),
      λ h. and_true _ (has_first "uuid" uuid _ there),
    )

    trojan_node-IsSound :
        (password : String) (q : Dict String)
        → not (password == "") ≡ true
        → IsSound (
            node_of trojan t host port password name uri
              (without_blanks (trojan_params codec password host t q)))
    unfolding node_of needed has_all trojan_params
    trojan_node-IsSound password q there = (
      (λ h. cc),
      without_blanks-Fits (trojan_params codec password host t q)
          (trojan_params-Fits codec password host t q),
      λ h. and_true _ (has_first "password" password _ there),
    )

    vmess_node-IsSound :
        (uuid display : String) (o : Dict Value)
        → not (uuid == "") ≡ true
        → IsSound (
            node_of vmess t host port uuid display uri
              (without_blanks (vmess_params codec uuid t o)))
    unfolding node_of needed has_all vmess_params
    vmess_node-IsSound uuid display o there = (
      (λ h. cc),
      without_blanks-Fits (vmess_params codec uuid t o) (vmess_params-Fits codec uuid t o),
      λ h. and_true _ (has_first "uuid" uuid _ there),
    )

    quic_node-IsSound :
        (pr : Protocol) (auth : String) (d : Dict Value)
        → is_quic pr ≡ true
        → All Fits d
        → IsSound (node_of pr t host port auth name uri (without_blanks d))
    unfolding node_of is_quic
    quic_node-IsSound pr auth d q h =
        ((λ e. ground arith), without_blanks-Fits d h, λ e. ground arith)

  module _ (codec : Codec) where
    pub parse_vless-IsSound :
        (uri : String) (n : ParsedNode) → parse_vless codec uri ≡ ok n → IsSound n
    unfolding parse_vless
    parse_vless-IsSound uri n e =
        let body = (split_name codec uri).0 in
        let rest = drop_chars 8 body in
        let q = flat_qs codec (behind (cut "?" rest)) in
        let net = py.lower (get_text "tcp" "type" q) in
        let sec = py.lower (get_nonempty "none" "security" q) in
        let (_, _, e1) = >>=-eq-ok (require (starts_with body "vless://")) _ e in
        let (user, _, e2) =
          >>=-eq-ok (split_userinfo_host codec (before rest (cut "?" rest))) _ e1 in
        let (x, there, e3) = >>=-eq-ok (require (not (user.0 == ""))) _ e2 in
        let (_, _, e4) = >>=-eq-ok (require (not (unsupported_net net))) _ e3 in
        let (t, _, e5) = >>=-eq-ok (or_raise parse_error (vless_net net)) _ e4 in
        let (_, _, e6) =
          >>=-eq-ok (require (not (sec == "reality" && first q ("pbk" ∷ []) == ""))) _ e5 in
        let (_, _, e7) = >>=-eq-ok (require (not (http_obfuscation t q))) _ e6 in
        rw (← ok_inj e7) (
          vless_node-IsSound codec t user.1 (pos user.2) (split_name codec uri).1 uri user.0 sec q
            (require-ok _ x there))

    pub parse_trojan-IsSound :
        (uri : String) (n : ParsedNode) → parse_trojan codec uri ≡ ok n → IsSound n
    unfolding parse_trojan
    parse_trojan-IsSound uri n e =
        let body = (split_name codec uri).0 in
        let rest = drop_chars 9 body in
        let q = flat_qs codec (behind (cut "?" rest)) in
        let (_, _, e1) = >>=-eq-ok (require (starts_with body "trojan://")) _ e in
        let (user, _, e2) =
          >>=-eq-ok (split_userinfo_host codec (before rest (cut "?" rest))) _ e1 in
        let (x, there, e3) = >>=-eq-ok (require (not (user.0 == ""))) _ e2 in
        let (t, _, e4) =
          >>=-eq-ok (or_raise parse_error (trojan_net (py.lower (get_nonempty "tcp" "type" q)))) _
            e3 in
        rw (← ok_inj e4) (
          trojan_node-IsSound codec t user.1 (pos user.2) (split_name codec uri).1 uri user.0 q
            (require-ok _ x there))

    pub parse_hysteria2-IsSound :
        (uri : String) (n : ParsedNode) → parse_hysteria2 codec uri ≡ ok n → IsSound n
    unfolding parse_hysteria2 is_quic
    parse_hysteria2-IsSound uri n e =
        let body = (split_name codec uri).0 in
        let (rest, _, e1) = >>=-eq-ok (hysteria2_rest codec body) _ e in
        let q = flat_qs codec (behind (cut "?" rest)) in
        let (user, _, e2) =
          >>=-eq-ok (split_userinfo_host codec (before rest (cut "?" rest))) _ e1 in
        rw (← ok_inj e2) (
          quic_node-IsSound codec quic user.1 (pos user.2) (split_name codec uri).1 uri hysteria2
            user.0 (hysteria2_params codec user.0 q) refl (hysteria2_params-Fits codec user.0 q))

    pub parse_tuic-IsSound :
        (uri : String) (n : ParsedNode) → parse_tuic codec uri ≡ ok n → IsSound n
    unfolding parse_tuic is_quic
    parse_tuic-IsSound uri n e =
        let body = (split_name codec uri).0 in
        let rest = drop_chars 7 body in
        let q = flat_qs codec (behind (cut "?" rest)) in
        let (_, _, e1) = >>=-eq-ok (require (starts_with body "tuic://")) _ e in
        let (user, _, e2) =
          >>=-eq-ok (split_userinfo_host codec (before rest (cut "?" rest))) _ e1 in
        let (_, _, e3) = >>=-eq-ok (require (contains ":" user.0)) _ e2 in
        let (pair, _, e4) =
          >>=-eq-ok (or_raise value_error (cut ":" (codec.unquote user.0))) _ e3 in
        rw (← ok_inj e4) (
          quic_node-IsSound codec quic user.1 (pos user.2) (split_name codec uri).1 uri tuic
            (pair.0 <> ":" <> pair.1) (tuic_params codec pair.0 pair.1 q) refl
            (tuic_params-Fits codec pair.0 pair.1 q))

    pub parse_shadowsocks-IsSound :
        (uri : String) (n : ParsedNode) → parse_shadowsocks codec uri ≡ ok n → IsSound n
    unfolding parse_shadowsocks node_of needed has_all has fits one_of
    parse_shadowsocks-IsSound uri n e =
        let body = (split_name codec uri).0 in
        let rest = drop_chars 5 body in
        let q = flat_qs codec (behind (cut "?" rest)) in
        let (_, _, e1) = >>=-eq-ok (require (starts_with body "ss://")) _ e in
        let (server, _, e2) = >>=-eq-ok (split_server codec (before rest (cut "?" rest))) _ e1 in
        let (place, _, e3) = >>=-eq-ok (or_raise parse_error (cut_last ":" server.2)) _ e2 in
        let (port, _, e4) = >>=-eq-ok (or_raise parse_error (parse_int place.1)) _ e3 in
        let (_, _, e5) = >>=-eq-ok (require (get_text "" "plugin" q == "")) _ e4 in
        rw (← ok_inj e5) ((λ h. cc), (refl, (refl, tt)), λ h. refl)

    pub parse_vmess-IsSound :
        (uri : String) (n : ParsedNode) → parse_vmess codec uri ≡ ok n → IsSound n
    unfolding parse_vmess
    parse_vmess-IsSound uri n e =
        let body = (split_name codec uri).0 in
        let (_, _, e1) = >>=-eq-ok (require (starts_with body "vmess://")) _ e in
        let (payload, _, e2) =
          >>=-eq-ok (or_raise parse_error (codec.base64_json (prepare_base64 (drop_chars 8 body))))
            _ e1 in
        let (o, _, e3) = >>=-eq-ok (object payload) _ e2 in
        let host = strip (to_str (get_or (str "") "add" o)) in
        let uuid = strip (to_str (get_or (str "") "id" o)) in
        let (_, _, e4) = >>=-eq-ok (require (not (host == ""))) _ e3 in
        let (v, _, e5) = >>=-eq-ok (or_raise parse_error (lookup "port" o)) _ e4 in
        let (port, _, e6) = >>=-eq-ok (or_raise parse_error (to_int v)) _ e5 in
        let (x, there, e7) = >>=-eq-ok (require (not (uuid == ""))) _ e6 in
        let (t, _, e8) =
          >>=-eq-ok
            (or_raise parse_error (vmess_net (py.lower (to_str (get_or (str "tcp") "net" o))))) _
            e7 in
        let (_, _, e9) = >>=-eq-ok (require (not (vmess_obfuscation codec t o))) _ e8 in
        rw (← ok_inj e9) (
          vmess_node-IsSound codec t host port "" uri uuid
            (or_text (split_name codec uri).1 (strip (text_at codec "ps" o))) o
            (require-ok _ x there))
