-- ===== src/Outbound/Shape.antt =====
-- What a generated outbound says: where to connect, the protocol, and when it has TLS and a transport.
use weronity_vpn.Prelude.{
  String, ◌≡◌, refl, ap, ◌∙◌, Bool, true, false, Option, none, some, not, ◌==◌, if◌then◌else◌,
  arith, Bool-cases, inl, inr, eq_iff,
}
use weronity_vpn.Prelude.Int.{pos}
use weronity_vpn.Prelude.Dict.{Dict, lookup, insert, lookup-insert}
use weronity_vpn.Prelude.Value.{Value, int, str, Runtime, truthy, get, get_or, to_int}
use weronity_vpn.Prelude.Result.{ok, value_error, ◌>>=◌, or_raise, >>=-eq-ok, ok_inj}
use weronity_vpn.Models.{
  ParsedNode, Protocol, vless, vmess, trojan, hysteria2, shadowsocks, tuic, shadowtls, Transport,
  ws, grpc, httpupgrade, h2, security, protocol_name, is_quic,
}
use weronity_vpn.Outbound.{
  put_if, item, put_int, credentials, base, tls_block, transport_block, build_outbound, put_some,
  is_plain, put_alpn, put_obfs, tls_names, tls_keys, put_obfs, tls_names, tls_keys,
}

abbrev pub is_there {ℓ} : {A : Type ℓ} → Option A → Bool
is_there none = false
is_there (some _) = true

lookup-put_if :
    (j k : String) (test : Bool) (v : Value) (d : Dict Value)
    → lookup j (put_if test k v d)
      ≡ (if k == j then (if test then some v else lookup j d) else lookup j d)
lookup-put_if j k test v d = ground (arith, lookup-insert j k v d)

-- A key that no branch by protocol writes.
abbrev IsForeign : String → Type 0
IsForeign j =
    (("type" == j) ≡ false)
    × (("uuid" == j) ≡ false)
    × (("flow" == j) ≡ false)
    × (("packet_encoding" == j) ≡ false)
    × (("alter_id" == j) ≡ false)
    × (("security" == j) ≡ false)
    × (("password" == j) ≡ false)
    × (("method" == j) ≡ false)
    × (("up_mbps" == j) ≡ false)
    × (("down_mbps" == j) ≡ false)
    × (("obfs" == j) ≡ false)
    × (("congestion_control" == j) ≡ false)
    × (("udp_relay_mode" == j) ≡ false)

lookup-put_obfs :
    (j : String) (p ob : Dict Value)
    → ("obfs" == j) ≡ false
    → lookup j (put_obfs p ob) ≡ lookup j ob
unfolding put_obfs
lookup-put_obfs j p ob other = simp (lookup-put_if, other)

module _ ⦃py : Runtime⦄ where
  lookup-put_int :
      (j k : String) (p ob ob' : Dict Value)
      → (k == j) ≡ false
      → put_int k p ob ≡ ok ob'
      → lookup j ob' ≡ lookup j ob
  unfolding put_int
  lookup-put_int j k p ob ob' other h = elim (Bool-cases (truthy (get k p))) [
    | inl there ↦
        let (z, _, r1) = >>=-eq-ok (or_raise value_error (to_int (get k p))) _ (rw there at h) in
        rw (← ok_inj r1) (simp (lookup-insert, other))
    | inr absent ↦ rw (← ok_inj (rw absent at h))
  ]

  lookup-credentials :
      (j : String) (pr : Protocol) (p ob ob' : Dict Value)
      → IsForeign j
      → credentials pr p ob ≡ ok ob'
      → lookup j ob' ≡ lookup j ob
  unfolding credentials
  lookup-credentials j vless p ob ob' x h =
      let (u, _, r1) = >>=-eq-ok (item "uuid" p) _ h in
      rw (← ok_inj r1) (simp (lookup-insert, lookup-put_if, x.0, x.1, x.2, x.3))
  lookup-credentials j vmess p ob ob' x h =
      let (u, _, r1) = >>=-eq-ok (item "uuid" p) _ h in
      let (z, _, r2) =
        >>=-eq-ok (or_raise value_error (to_int (get_or (int (pos 0)) "alter_id" p))) _ r1 in
      rw (← ok_inj r2) (simp (lookup-insert, x.0, x.1, x.4, x.5))
  lookup-credentials j trojan p ob ob' x h =
      let (u, _, r1) = >>=-eq-ok (item "password" p) _ h in
      rw (← ok_inj r1) (simp (lookup-insert, x.0, x.6))
  lookup-credentials j shadowsocks p ob ob' x h =
      let (m, _, r1) = >>=-eq-ok (item "method" p) _ h in
      let (w, _, r2) = >>=-eq-ok (item "password" p) _ r1 in
      rw (← ok_inj r2) (simp (lookup-insert, x.0, x.6, x.7))
  lookup-credentials j hysteria2 p ob ob' x h =
      let (w, _, r1) = >>=-eq-ok (item "password" p) _ h in
      let (ob1, up, r2) =
        >>=-eq-ok (put_int "up_mbps" p (insert "password" w (insert "type" (str "hysteria2") ob)))
          (λ ob1. put_int "down_mbps" p ob1 >>= λ ob2. ok (put_obfs p ob2)) r1 in
      let (ob2, down, r3) = >>=-eq-ok (put_int "down_mbps" p ob1) (λ ob2. ok (put_obfs p ob2)) r2 in
      rw (← ok_inj r3) (
        lookup-put_obfs j p ob2 x.10
        ∙ (lookup-put_int j "down_mbps" p ob1 ob2 x.9 down
            ∙ lookup-put_int j "up_mbps" p
                (insert "password" w (insert "type" (str "hysteria2") ob)) ob1 x.8 up
            ∙ simp (lookup-insert, x.0, x.6)))
  lookup-credentials j tuic p ob ob' x h =
      let (u, _, r1) = >>=-eq-ok (item "uuid" p) _ h in
      let (w, _, r2) = >>=-eq-ok (item "password" p) _ r1 in
      rw (← ok_inj r2) (simp (lookup-insert, x.0, x.1, x.6, x.11, x.12))
  lookup-credentials j shadowtls p ob ob' x h = cc

  lookup_type-credentials :
      (pr : Protocol) (p ob ob' : Dict Value)
      → credentials pr p ob ≡ ok ob'
      → lookup "type" ob' ≡ some (str (protocol_name pr))
  unfolding credentials protocol_name
  lookup_type-credentials vless p ob ob' h =
      let (u, _, r1) = >>=-eq-ok (item "uuid" p) _ h in
      rw (← ok_inj r1) (simp (lookup-insert, lookup-put_if))
  lookup_type-credentials vmess p ob ob' h =
      let (u, _, r1) = >>=-eq-ok (item "uuid" p) _ h in
      let (z, _, r2) =
        >>=-eq-ok (or_raise value_error (to_int (get_or (int (pos 0)) "alter_id" p))) _ r1 in
      rw (← ok_inj r2) (simp lookup-insert)
  lookup_type-credentials trojan p ob ob' h =
      let (u, _, r1) = >>=-eq-ok (item "password" p) _ h in rw (← ok_inj r1) (simp lookup-insert)
  lookup_type-credentials shadowsocks p ob ob' h =
      let (m, _, r1) = >>=-eq-ok (item "method" p) _ h in
      let (w, _, r2) = >>=-eq-ok (item "password" p) _ r1 in rw (← ok_inj r2) (simp lookup-insert)
  lookup_type-credentials hysteria2 p ob ob' h =
      let (w, _, r1) = >>=-eq-ok (item "password" p) _ h in
      let (ob1, up, r2) =
        >>=-eq-ok (put_int "up_mbps" p (insert "password" w (insert "type" (str "hysteria2") ob)))
          (λ ob1. put_int "down_mbps" p ob1 >>= λ ob2. ok (put_obfs p ob2)) r1 in
      let (ob2, down, r3) = >>=-eq-ok (put_int "down_mbps" p ob1) (λ ob2. ok (put_obfs p ob2)) r2 in
      rw (← ok_inj r3) (
        lookup-put_obfs "type" p ob2 refl
        ∙ (lookup-put_int "type" "down_mbps" p ob1 ob2 refl down
            ∙ lookup-put_int "type" "up_mbps" p
                (insert "password" w (insert "type" (str "hysteria2") ob)) ob1 refl up
            ∙ simp lookup-insert))
  lookup_type-credentials tuic p ob ob' h =
      let (u, _, r1) = >>=-eq-ok (item "uuid" p) _ h in
      let (w, _, r2) = >>=-eq-ok (item "password" p) _ r1 in rw (← ok_inj r2) (simp lookup-insert)
  lookup_type-credentials shadowtls p ob ob' h = cc

  not_quic_of_plain : (n : ParsedNode) → is_plain (security n) ≡ true → is_quic n.protocol ≡ false
  unfolding security
  not_quic_of_plain n h = ground arith

  -- Plain security excludes the QUIC protocols, so it alone decides.
  tls_block-is_there :
      (n : ParsedNode) (block : Option (Dict Value))
      → tls_block n ≡ ok block
      → is_there block ≡ not (is_plain (security n))
  unfolding tls_block
  tls_block-is_there n block h = elim (Bool-cases (is_plain (security n))) [
    | inl p ↦ let e : ok none ≡ ok block = rw (p, not_quic_of_plain n p) at h in rw (← ok_inj e, p)
    | inr np ↦
        let (d, _, r1) =
          >>=-eq-ok (put_alpn (get "alpn" n.params) (tls_names n.params))
            (λ d. ok (some (tls_keys (security n) n.params d))) (rw np at h) in
        rw (← ok_inj r1, np)
  ]

-- The transports that sing-box is told of.
unfoldable pub carries : Transport → Bool
carries ws = true
carries grpc = true
carries httpupgrade = true
carries h2 = true
carries _ = false

transport_block-is_there : (n : ParsedNode) → is_there (transport_block n) ≡ carries n.transport
unfolding transport_block carries
transport_block-is_there n = ground arith

lookup-put_some :
    (j k : String) (d : Option (Dict Value)) (ob : Dict Value)
    → (k == j) ≡ false
    → lookup j (put_some k d ob) ≡ lookup j ob
lookup-put_some j k none ob other = refl
lookup-put_some j k (some d) ob other = simp (lookup-insert, other)

put_some-is_there :
    (k : String) (d : Option (Dict Value)) (ob : Dict Value)
    → lookup k ob ≡ none
    → is_there (lookup k (put_some k d ob)) ≡ is_there d
put_some-is_there k none ob absent = rw absent
put_some-is_there k (some d) ob absent = simp lookup-insert (ground (arith, eq_iff k k))

module _ ⦃py : Runtime⦄ where
  -- What the last two steps add to the dict of the branch by protocol.
  module _ (n : ParsedNode) (ob' : Dict Value) (block : Option (Dict Value))
      (made : credentials n.protocol n.params (base n) ≡ ok ob')
      (secured : tls_block n ≡ ok block) where
    abbrev assembled : Dict Value
    assembled = put_some "transport" (transport_block n) (put_some "tls" block ob')

    assembled_foreign :
        (j : String)
        → ("tls" == j) ≡ false
        → ("transport" == j) ≡ false
        → IsForeign j
        → lookup j assembled ≡ lookup j (base n)
    assembled_foreign j t u x =
        lookup-put_some j "transport" (transport_block n) (put_some "tls" block ob') u
        ∙ lookup-put_some j "tls" block ob' t
        ∙ lookup-credentials j n.protocol n.params (base n) ob' x made

    assembled_type : lookup "type" assembled ≡ some (str (protocol_name n.protocol))
    assembled_type =
        lookup-put_some "type" "transport" (transport_block n) (put_some "tls" block ob') refl
        ∙ lookup-put_some "type" "tls" block ob' refl
        ∙ lookup_type-credentials n.protocol n.params (base n) ob' made

    assembled_tls : is_there (lookup "tls" assembled) ≡ not (is_plain (security n))
    unfolding base lookup
    assembled_tls =
        ap is_there
          (lookup-put_some "tls" "transport" (transport_block n) (put_some "tls" block ob') refl)
        ∙ put_some-is_there "tls" block ob' (
            lookup-credentials "tls" n.protocol n.params (base n) ob'
              (refl, refl, refl, refl, refl, refl, refl, refl, refl, refl, refl, refl, refl) made)
        ∙ tls_block-is_there n block secured

    assembled_transport : is_there (lookup "transport" assembled) ≡ carries n.transport
    unfolding base lookup
    assembled_transport =
        put_some-is_there "transport" (transport_block n) (put_some "tls" block ob') (
          lookup-put_some "transport" "tls" block ob' refl
          ∙ lookup-credentials "transport" n.protocol n.params (base n) ob'
              (refl, refl, refl, refl, refl, refl, refl, refl, refl, refl, refl, refl, refl) made)
        ∙ transport_block-is_there n

  -- An outbound connects to the node's host and port under the node's tag, names the node's
  -- protocol, has a TLS block exactly if the node's security is not plain, and a transport block
  -- exactly for the transports ws, grpc, httpupgrade and h2.
  pub build_outbound_shape :
      (n : ParsedNode) (ob : Dict Value)
      → build_outbound n ≡ ok ob
      → (lookup "server" ob ≡ some (str n.endpoint.host))
        × (lookup "server_port" ob ≡ some (int n.endpoint.port))
        × (lookup "tag" ob ≡ some (str n.tag))
        × (lookup "type" ob ≡ some (str (protocol_name n.protocol)))
        × (is_there (lookup "tls" ob) ≡ not (is_plain (security n)))
        × (is_there (lookup "transport" ob) ≡ carries n.transport)
  unfolding build_outbound base lookup
  build_outbound_shape n ob h =
      let (ob', made, r1) = >>=-eq-ok (credentials n.protocol n.params (base n)) _ h in
      let (block, secured, r2) = >>=-eq-ok (tls_block n) _ r1 in
      rw (← ok_inj r2) (
        assembled_foreign n ob' block made secured "server" refl refl
            (refl, refl, refl, refl, refl, refl, refl, refl, refl, refl, refl, refl, refl),
        assembled_foreign n ob' block made secured "server_port" refl refl
            (refl, refl, refl, refl, refl, refl, refl, refl, refl, refl, refl, refl, refl),
        assembled_foreign n ob' block made secured "tag" refl refl
            (refl, refl, refl, refl, refl, refl, refl, refl, refl, refl, refl, refl, refl),
        assembled_type n ob' block made secured,
        assembled_tls n ob' block made secured,
        assembled_transport n ob' block made secured,
      )
