-- ===== src/Parsers/Dispatch.antt =====
-- What `parse_uri` promises of the nodes that it returns, and which of them have no outbound.
use weronity_vpn.Prelude.{
  ℕ, ◌≤◌, String, ◌≡◌, refl, true, false, [], ◌∷◌, ◌||◌, not, ◌==◌, arith, All, Bool-cases, inl,
  inr,
}
use weronity_vpn.Prelude.Int.{ℤ, pos, negsuc}
use weronity_vpn.Prelude.Dict.{Dict, has}
use weronity_vpn.Prelude.Text.{strip, cut, one_of}
use weronity_vpn.Prelude.Value.{Value, Runtime}
use weronity_vpn.Prelude.Result.{
  ok, err, parse_error, key_error, >>=-eq-ok, ok_inj, succeeds, or_raise,
}
use weronity_vpn.Models.{ParsedNode, hysteria2, is_quic, quic}
use weronity_vpn.Outbound.{build_outbound}
use weronity_vpn.Outbound.Credentials.{needed, build_outbound-succeeds, build_outbound_missing}
use weronity_vpn.Parsers.Url.{Codec, flat_qs, before, behind}
use weronity_vpn.Parsers.Common.{
  require, split_name, split_userinfo_host, without_blanks, node_of, is_blank, first,
}
use weronity_vpn.Parsers.Hysteria2.{parse_hysteria2, hysteria2_params, hysteria2_rest, obfs_params}
use weronity_vpn.Parsers.Sound.{
  IsSound, parse_vless-IsSound, parse_vmess-IsSound, parse_trojan-IsSound, parse_hysteria2-IsSound,
  parse_shadowsocks-IsSound, parse_tuic-IsSound, require-ok,
}
use weronity_vpn.Parsers.Fits.{converts_of_Fits}
use weronity_vpn.Parsers.Registry.{scheme_of, is_port, parse_as, parse_uri}

pub is_port-bounds : (z : ℤ) → is_port z ≡ true → (p : ℕ) × (z ≡ pos p) × (1 ≤ p) × (p ≤ 65535)
unfolding is_port
is_port-bounds (pos n) h = (n, refl, ground arith, ground arith)
is_port-bounds (negsuc n) h = cc

module _ ⦃py : Runtime⦄ (codec : Codec) where
  parse_as-IsSound :
      (scheme uri : String) (n : ParsedNode) → parse_as codec scheme uri ≡ ok n → IsSound n
  unfolding parse_as
  parse_as-IsSound scheme uri n e = elim (Bool-cases (scheme == "vless")) [
    | inl a ↦ parse_vless-IsSound codec uri n (rw a at e)
    | inr a ↦ elim (Bool-cases (scheme == "vmess")) [
      | inl b ↦ parse_vmess-IsSound codec uri n (rw (a, b) at e)
      | inr b ↦ elim (Bool-cases (scheme == "trojan")) [
        | inl c ↦ parse_trojan-IsSound codec uri n (rw (a, b, c) at e)
        | inr c ↦ elim (Bool-cases (scheme == "hysteria2" || scheme == "hy2")) [
          | inl d ↦ parse_hysteria2-IsSound codec uri n (rw (a, b, c, d) at e)
          | inr d ↦ elim (Bool-cases (scheme == "ss")) [
            | inl x ↦ parse_shadowsocks-IsSound codec uri n (rw (a, b, c, d, x) at e)
            | inr x ↦ elim (Bool-cases (scheme == "tuic")) [
              | inl y ↦ parse_tuic-IsSound codec uri n (rw (a, b, c, d, x, y) at e)
              | inr y ↦ absurd (ground arith)
            ]
          ]
        ]
      ]
    ]
  ]

  -- A node that `parse_uri` returns has a port from 1 to 65535.
  pub parse_uri_port :
      (uri : String) (n : ParsedNode)
      → parse_uri codec uri ≡ ok n
      → (p : ℕ) × (n.endpoint.port ≡ pos p) × (1 ≤ p) × (p ≤ 65535)
  unfolding parse_uri
  parse_uri_port uri n e =
      let (scheme, _, r1) = >>=-eq-ok (or_raise parse_error (scheme_of uri)) _ e in
      let (node, _, r2) = >>=-eq-ok (parse_as codec scheme (strip uri)) _ r1 in
      let (x, fits, r3) = >>=-eq-ok (require (is_port node.endpoint.port)) _ r2 in
      rw (← ok_inj r3) (is_port-bounds node.endpoint.port (require-ok _ x fits))

  parse_uri-IsSound : (uri : String) (n : ParsedNode) → parse_uri codec uri ≡ ok n → IsSound n
  unfolding parse_uri
  parse_uri-IsSound uri n e =
      let (scheme, _, r1) = >>=-eq-ok (or_raise parse_error (scheme_of uri)) _ e in
      let (node, parsed, r2) = >>=-eq-ok (parse_as codec scheme (strip uri)) _ r1 in
      let (_, _, r3) = >>=-eq-ok (require (is_port node.endpoint.port)) _ r2 in
      rw (← ok_inj r3) (parse_as-IsSound scheme (strip uri) node parsed)

  -- A node that `parse_uri` returns for a protocol other than Hysteria2 and TUIC has an outbound:
  -- the builder does not raise.
  pub parse_uri-build_outbound :
      (uri : String) (n : ParsedNode)
      → parse_uri codec uri ≡ ok n
      → is_quic n.protocol ≡ false
      → succeeds (build_outbound n) ≡ true
  parse_uri-build_outbound uri n e over_tcp =
      let (known, fit, there) = parse_uri-IsSound uri n e in
      build_outbound-succeeds n known (there over_tcp) (converts_of_Fits n.params fit)

  has-without_blanks :
      (k : String) (d : Dict Value)
      → All (λ (j, v). (not (j == k) || is_blank v) ≡ true) d
      → has k (without_blanks d) ≡ false
  unfolding without_blanks has
  has-without_blanks k [] h = refl
  has-without_blanks k ((j, v) ∷ d) (p, h) = ground (arith, has-without_blanks k d h)

  obfs_params-absent :
      (q : Dict String)
      → All (λ (j, v). (not (j == "password") || is_blank v) ≡ true) (obfs_params codec q)
  unfolding obfs_params
  obfs_params-absent q =
      elim (Bool-cases
        (one_of (py.lower (first q ("obfs" ∷ []))) ("salamander" ∷ "salamanderv2" ∷ []))) [
          | inl on ↦ rw on (refl, (refl, tt))
          | inr off ↦ rw off tt
        ]

  hysteria2_node_missing :
      (host : String) (port : ℤ) (name uri auth : String) (q : Dict String)
      → (auth == "") ≡ true
      → build_outbound (
          node_of hysteria2 quic host port auth name uri
            (without_blanks (hysteria2_params codec auth q)))
        ≡ err key_error
  unfolding node_of needed hysteria2_params is_blank one_of
  hysteria2_node_missing host port name uri auth q h = build_outbound_missing _ "password" refl (
      has-without_blanks "password" (hysteria2_params codec auth q) (
        ground arith,
        (refl, (refl, (refl, (refl, (refl, (refl, (refl, (refl, obfs_params-absent q)))))))),
      ))

  -- If `parse` of Hysteria2 returns a node with an empty password, the node has no outbound: the builder
  -- raises `KeyError`.
  pub parse_hysteria2_empty_auth :
      (uri : String) (n : ParsedNode)
      → parse_hysteria2 codec uri ≡ ok n
      → (n.auth == "") ≡ true
      → build_outbound n ≡ err key_error
  unfolding parse_hysteria2 node_of
  parse_hysteria2_empty_auth uri n e empty =
      let body = (split_name codec uri).0 in
      let (rest, _, e1) = >>=-eq-ok (hysteria2_rest codec body) _ e in
      let q = flat_qs codec (behind (cut "?" rest)) in
      let (user, _, e2) = >>=-eq-ok (split_userinfo_host codec (before rest (cut "?" rest))) _ e1 in
      rw (← ok_inj e2) (
        hysteria2_node_missing user.1 (pos user.2) (split_name codec uri).1 uri user.0 q
          (rw (← ok_inj e2) at empty))
