-- ===== src/Parsers/Hysteria2.antt =====
-- parsers/hysteria2.py
use weronity_vpn.Prelude.{String, none, some, List, [], ◌∷◌, ◌||◌, if◌then◌else◌}
use weronity_vpn.Prelude.Int.{pos}
use weronity_vpn.Prelude.Dict.{Dict}
use weronity_vpn.Prelude.Text.{cut, one_of}
use weronity_vpn.Prelude.Value.{Value, null, bool, int, str, arr, Runtime, texts, parse_int}
use weronity_vpn.Prelude.Result.{Result, ok, err, parse_error, ◌>>=◌}
use weronity_vpn.Models.{ParsedNode, quic, hysteria2}
use weronity_vpn.Parsers.Url.{Codec, flat_qs, before, behind}
use weronity_vpn.Parsers.Common.{
  split_name, split_userinfo_host, first, first_or, get_text, as_bool, csv_list, or_none,
  without_blanks, node_of,
}

-- `_int`
unfoldable pub optional_int : ⦃py : Runtime⦄ → String → Value
unfolding parse_int
optional_int value = elim (parse_int value) [ none ↦ null | some z ↦ int z ]

-- `csv_list(q.get("alpn")) or ["h3"]`
unfoldable pub alpn_or_h3 : Dict String → List String
unfolding csv_list get_text
alpn_or_h3 q = elim (csv_list (get_text "" "alpn" q)) [ [] ↦ "h3" ∷ [] | t ∷ ts ↦ t ∷ ts ]

module _ ⦃py : Runtime⦄ (codec : Codec) where
  unfoldable pub obfs_params : Dict String → Dict Value
  unfolding first_or one_of
  obfs_params q =
      if one_of (py.lower (first q ("obfs" ∷ []))) ("salamander" ∷ "salamanderv2" ∷ [])
      then ("obfs", str "salamander")
        ∷ (
          "obfs_password",
          or_none (first q ("obfs-password" ∷ "obfsParam" ∷ "obfs_password" ∷ [])),
        )
        ∷ []
      else []

  unfoldable pub hysteria2_params : String → Dict String → Dict Value
  unfolding first_or get_text as_bool alpn_or_h3 optional_int obfs_params
  hysteria2_params auth q =
      ("password", str auth)
      ∷ ("security", str "tls")
      ∷ ("sni", or_none (first q ("sni" ∷ "peer" ∷ "servername" ∷ [])))
      ∷ ("alpn", arr (texts (alpn_or_h3 q)))
      ∷ (
        "allow_insecure",
        bool (as_bool (get_text "" "insecure" q) || as_bool (get_text "" "allowInsecure" q)),
      )
      ∷ ("pin_sha256", or_none (first q ("pinSHA256" ∷ "pinsha256" ∷ [])))
      ∷ ("up_mbps", optional_int (first q ("up" ∷ "upmbps" ∷ [])))
      ∷ ("down_mbps", optional_int (first q ("down" ∷ "downmbps" ∷ [])))
      ∷ ("port_hopping", or_none (first q ("mport" ∷ [])))
      ∷ obfs_params q

  -- `partition("://")`, whose scheme is one of the two
  unfoldable pub hysteria2_rest : String → Result String
  unfolding cut one_of
  hysteria2_rest body = elim (cut "://" body) [
    | none ↦ err parse_error
    | some (scheme, rest) ↦
        if one_of scheme ("hysteria2" ∷ "hy2" ∷ []) then ok rest else err parse_error
  ]

  unfoldable pub parse_hysteria2 : String → Result ParsedNode
  unfolding split_name hysteria2_rest cut split_userinfo_host flat_qs hysteria2_params
      without_blanks node_of
  parse_hysteria2 uri = do
    let (body, name) = split_name codec uri
    rest ← hysteria2_rest body
    let parts = cut "?" rest
    (auth, host, port) ← split_userinfo_host codec (before rest parts)
    let q = flat_qs codec (behind parts)
    ok (
        node_of hysteria2 quic host (pos port) auth name uri
          (without_blanks (hysteria2_params auth q)))
