-- ===== src/Parsers/Shadowsocks.antt =====
-- parsers/shadowsocks.py
use weronity_vpn.Prelude.{
  String, ◌<>◌, Bool, none, some, [], ◌∷◌, ◌||◌, ◌==◌, if◌then◌else◌, code, Char, eqb,
}
use weronity_vpn.Prelude.Text.{cut, cut_last, one_of, drop_chars, strip_right, strip_left}
use weronity_vpn.Prelude.Value.{str, Runtime, parse_int}
use weronity_vpn.Prelude.Result.{Result, ok, err, parse_error, ◌>>=◌, ◌>>◌, or_raise}
use weronity_vpn.Models.{ParsedNode, tcp, shadowsocks}
use weronity_vpn.Parsers.Url.{Codec, flat_qs, before, behind}
use weronity_vpn.Parsers.Common.{require, split_name, get_text, node_of, prepare_base64}
use text.Mathlib.Text.{starts_with}

-- `_KNOWN_METHODS`
unfoldable pub is_known_method : String → Bool
unfolding one_of
is_known_method method = one_of method (
    "2022-blake3-aes-128-gcm" ∷ "2022-blake3-aes-256-gcm" ∷ "2022-blake3-chacha20-poly1305"
    ∷ "aes-128-gcm" ∷ "aes-192-gcm" ∷ "aes-256-gcm" ∷ "chacha20-ietf-poly1305"
    ∷ "xchacha20-ietf-poly1305" ∷ "chacha20-poly1305" ∷ "none" ∷ "plain" ∷ [])

-- `host.strip("[]")`
unfoldable pub without_brackets : String → String
unfolding strip_left strip_right
without_brackets host =
    let bracket : Char → Bool = λ c. eqb (code c) b'[' || eqb (code c) b']' in
    strip_right bracket (strip_left bracket host)

-- `b64decode_any(text).decode("utf-8", "replace")`
unfoldable pub decode_text : Codec → String → Result String
unfolding prepare_base64
decode_text codec s = or_raise parse_error (codec.base64 (prepare_base64 s))

module _ ⦃py : Runtime⦄ (codec : Codec) where
  -- `_split_method_pass`
  unfoldable pub split_method_pass : String → Result (String × String)
  unfolding cut is_known_method decode_text
  split_method_pass userinfo =
      let decoded : String = elim (decode_text codec userinfo) [ ok t ↦ t | err e ↦ userinfo ] in
      let by_decoding = or_raise parse_error (cut ":" decoded) in
      elim (cut ":" userinfo) [
        | none ↦ by_decoding
        | some (method, password) ↦
            if is_known_method (py.lower method) then ok (method, password) else by_decoding
      ]

  -- The two forms: `userinfo@hostport`, or the base64 of the whole.
  unfoldable pub split_server : String → Result (String × String × String)
  unfolding cut cut_last split_method_pass decode_text
  split_server rest = elim (cut_last "@" rest) [
    | some (userinfo, hostport) ↦ do
      (method, password) ← split_method_pass (codec.unquote userinfo)
      ok (method, password, hostport)
    | none ↦ do
      decoded ← decode_text codec rest
      (userinfo, hostport) ← or_raise parse_error (cut_last "@" decoded)
      (method, password) ← or_raise parse_error (cut ":" userinfo)
      ok (method, password, hostport)
  ]

  unfoldable pub parse_shadowsocks : String → Result ParsedNode
  unfolding split_name cut cut_last flat_qs split_server node_of drop_chars without_brackets
      parse_int get_text
  parse_shadowsocks uri = do
    let (body, name) = split_name codec uri
    require (starts_with body "ss://")
    let rest = drop_chars 5 body
    let parts = cut "?" rest
    (method, password, hostport) ← split_server (before rest parts)
    (host_text, port_text) ← or_raise parse_error (cut_last ":" hostport)
    port ← or_raise parse_error (parse_int port_text)
    require (get_text "" "plugin" (flat_qs codec (behind parts)) == "")
    ok (
        node_of shadowsocks tcp (without_brackets host_text) port (method <> ":" <> password) name
          uri (("method", str method) ∷ ("password", str password) ∷ []))
