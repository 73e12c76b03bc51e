-- ===== src/Outbound/Credentials.antt =====
-- Which nodes have an outbound: those that carry the credentials of their protocol. A node without
-- one makes the builder raise, and the pool's builder does not catch it.
use weronity_vpn.Prelude.{
  String, ◌≡◌, ◌≢◌, refl, Bool, true, false, none, List, [], ◌∷◌, ◌&&◌, not, ◌==◌, arith,
  Bool-cases, inl, inr, eq_iff,
}
use weronity_vpn.Prelude.Int.{pos}
use weronity_vpn.Prelude.Dict.{Dict, lookup, has, insert, lookup-has, lookup-ne-none}
use weronity_vpn.Prelude.Text.{one_of}
use weronity_vpn.Prelude.Value.{Value, int, str, arr, nil, Runtime, get, get_or, to_int}
use weronity_vpn.Prelude.Result.{Result, ok, err, key_error, ◌>>=◌, succeeds}
use weronity_vpn.Models.{
  ParsedNode, Protocol, vless, vmess, trojan, hysteria2, shadowsocks, tuic, shadowtls, security,
  is_quic,
}
use weronity_vpn.Outbound.{
  item, put_int, credentials, base, tls_block, build_outbound, is_plain, put_alpn, list_of,
  tls_names,
}
use weronity_vpn.Outbound.Shape.{is_there}

-- The parameters that the outbound of a protocol reads with `p[...]`.
unfoldable pub needed : Protocol → List String
needed vless = "uuid" ∷ []
needed vmess = "uuid" ∷ []
needed trojan = "password" ∷ []
needed shadowsocks = "method" ∷ "password" ∷ []
needed hysteria2 = "password" ∷ []
needed tuic = "uuid" ∷ "password" ∷ []
needed shadowtls = []

-- Every one of the keys is there.
unfoldable pub has_all : List String → Dict Value → Bool
has_all [] p = true
has_all (k ∷ ks) p = has k p && has_all ks p

absent_item :
    (k j : String) (p : Dict Value) → (k == j) ≡ true → has k p ≡ false → lookup j p ≡ none
absent_item k j p same absent = rw (← (eq_iff k j).0 same) (lookup-has k p absent)

module _ ⦃py : Runtime⦄ where
  credentials_missing :
      (pr : Protocol) (p ob : Dict Value) (k : String)
      → one_of k (needed pr) ≡ true
      → has k p ≡ false
      → credentials pr p ob ≡ err key_error
  unfolding credentials needed one_of
  credentials_missing vless p ob k h absent = ground (arith, absent_item k "uuid" p)
  credentials_missing vmess p ob k h absent = ground (arith, absent_item k "uuid" p)
  credentials_missing trojan p ob k h absent = ground (arith, absent_item k "password" p)
  credentials_missing shadowsocks p ob k h absent =
      ground (arith, absent_item k "method" p, absent_item k "password" p)
  credentials_missing hysteria2 p ob k h absent = ground (arith, absent_item k "password" p)
  credentials_missing tuic p ob k h absent =
      ground (arith, absent_item k "uuid" p, absent_item k "password" p)
  credentials_missing shadowtls p ob k h absent = cc

  -- Without a credential that its protocol needs, a node's outbound raises `KeyError`.
  pub build_outbound_missing :
      (n : ParsedNode) (k : String)
      → one_of k (needed n.protocol) ≡ true
      → has k n.params ≡ false
      → build_outbound n ≡ err key_error
  unfolding build_outbound
  build_outbound_missing n k h absent =
      rw (credentials_missing n.protocol n.params (base n) k h absent)

  -- The numbers among the parameters are numbers or texts of such, and the ALPN is a list.
  unfoldable pub converts : Dict Value → Bool
  converts p =
      is_there (to_int (get_or (int (pos 0)) "alter_id" p))
      && (is_there (to_int (get_or (int (pos 0)) "up_mbps" p))
          && (is_there (to_int (get_or (int (pos 0)) "down_mbps" p))
              && succeeds (list_of (get_or (arr nil) "alpn" p))))

  put_int-succeeds :
      (k : String) (p ob : Dict Value)
      → is_there (to_int (get_or (int (pos 0)) k p)) ≡ true
      → succeeds (put_int k p ob) ≡ true
  unfolding put_int
  put_int-succeeds k p ob h = ground arith

  put_alpn-succeeds :
      (p d : Dict Value)
      → succeeds (list_of (get_or (arr nil) "alpn" p)) ≡ true
      → succeeds (put_alpn (get "alpn" p) d) ≡ true
  unfolding put_alpn get
  put_alpn-succeeds p d h = ground arith

  succeeds-bind :
      {A B : Type 0} (m : Result A) (f : A → Result B)
      → succeeds m ≡ true
      → ((a : A) → succeeds (f a) ≡ true)
      → succeeds (m >>= f) ≡ true
  succeeds-bind (ok a) f h k = k a
  succeeds-bind (err e) f h k = cc

  credentials-succeeds :
      (pr : Protocol) (p ob : Dict Value)
      → pr ≢ shadowtls
      → has_all (needed pr) p ≡ true
      → converts p ≡ true
      → succeeds (credentials pr p ob) ≡ true
  unfolding credentials needed converts has_all
  credentials-succeeds vless p ob known h c = ground (arith, lookup-ne-none "uuid" p)
  credentials-succeeds vmess p ob known h c = ground (arith, lookup-ne-none "uuid" p)
  credentials-succeeds trojan p ob known h c = ground (arith, lookup-ne-none "password" p)
  credentials-succeeds shadowsocks p ob known h c =
      ground (arith, lookup-ne-none "method" p, lookup-ne-none "password" p)
  credentials-succeeds hysteria2 p ob known h c =
      succeeds-bind (item "password" p) _ (ground (arith, lookup-ne-none "password" p)) λ w.
        succeeds-bind
          (put_int "up_mbps" p (insert "password" w (insert "type" (str "hysteria2") ob))) _
          (put_int-succeeds "up_mbps" p (insert "password" w (insert "type" (str "hysteria2") ob))
            (ground arith))
          λ ob1.
            succeeds-bind (put_int "down_mbps" p ob1) _
              (put_int-succeeds "down_mbps" p ob1 (ground arith)) λ ob2. refl
  credentials-succeeds tuic p ob known h c =
      ground (arith, lookup-ne-none "uuid" p, lookup-ne-none "password" p)
  credentials-succeeds shadowtls p ob known h c = absurd (known refl)

  tls_block-succeeds : (n : ParsedNode) → converts n.params ≡ true → succeeds (tls_block n) ≡ true
  unfolding tls_block converts
  tls_block-succeeds n c = elim (Bool-cases (is_plain (security n) && not (is_quic n.protocol))) [
    | inl bare ↦ rw bare
    | inr secured ↦ rw secured (
        succeeds-bind (put_alpn (get "alpn" n.params) (tls_names n.params)) _
          (put_alpn-succeeds n.params (tls_names n.params) (ground arith)) λ d. refl)
  ]

  -- A node of a protocol other than ShadowTLS has an outbound, if it has the credentials of its
  -- protocol and its numbers and its ALPN convert.
  pub build_outbound-succeeds :
      (n : ParsedNode)
      → n.protocol ≢ shadowtls
      → has_all (needed n.protocol) n.params ≡ true
      → converts n.params ≡ true
      → succeeds (build_outbound n) ≡ true
  unfolding build_outbound
  build_outbound-succeeds n known h c =
      succeeds-bind (credentials n.protocol n.params (base n)) _
        (credentials-succeeds n.protocol n.params (base n) known h c)
        λ ob. succeeds-bind (tls_block n) _ (tls_block-succeeds n c) λ block. refl
