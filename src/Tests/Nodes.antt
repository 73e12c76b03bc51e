-- ===== src/Tests/Nodes.antt =====
-- Examples for the parsers, the outbounds and the probes.
use weronity_vpn.Prelude.{
  ℕ, suc, zero, ◌≤◌, String, ◌≡◌, refl, true, false, some, List, [], ◌∷◌, not, arith, length,
}
use weronity_vpn.Prelude.Int.{pos}
use weronity_vpn.Prelude.Dict.{Dict, lookup, has}
use weronity_vpn.Prelude.Value.{Value, str, int, get_or, to_int}
use weronity_vpn.Prelude.Result.{ok, err, key_error, succeeds}
use weronity_vpn.Models.{ParsedNode, trojan, ws, protocol_name, security, is_quic}
use weronity_vpn.Prelude.Text.{one_of}
use weronity_vpn.Outbound.{build_outbound, is_plain, list_of}
use weronity_vpn.Outbound.Shape.{build_outbound_shape, is_there, carries}
use weronity_vpn.Outbound.Credentials.{
  build_outbound_missing, build_outbound-succeeds, needed, has_all, converts,
}
use weronity_vpn.Ping.{
  salamander_obfuscate, salamander_deobfuscate, quic_probe_packet, is_version_negotiation,
  min_datagram,
}
use weronity_vpn.Ping.Salamander.{deobfuscate-obfuscate, quic_probe_packet_lem}
use weronity_vpn.Parsers.Registry.{parse_uri}
use weronity_vpn.Parsers.Hysteria2.{parse_hysteria2}
use weronity_vpn.Parsers.Dispatch.{
  parse_uri_port, parse_uri-build_outbound, parse_hysteria2_empty_auth,
}
use weronity_vpn.Tests.Setup.{ascii, lower_ascii, codec}
use weronity_vpn.Tests.Setup.{value_or, blank_node}

abbrev trojan_uri : String
trojan_uri = "trojan://pw@A.example:443?type=ws&path=/x#One"

abbrev trojan_node : ParsedNode
unfolding parse_uri lower_ascii
trojan_node = value_or blank_node (parse_uri ⦃py = ascii⦄ codec trojan_uri)

trojan_parsed : parse_uri ⦃py = ascii⦄ codec trojan_uri ≡ ok trojan_node
unfolding parse_uri lower_ascii trojan_node
trojan_parsed = refl

parse_uri_port_example : (p : ℕ) × (trojan_node.endpoint.port ≡ pos p) × (1 ≤ p) × (p ≤ 65535)
parse_uri_port_example = parse_uri_port ⦃py = ascii⦄ codec trojan_uri trojan_node trojan_parsed

parse_uri-build_outbound_example : succeeds (build_outbound ⦃py = ascii⦄ trojan_node) ≡ true
parse_uri-build_outbound_example =
    parse_uri-build_outbound ⦃py = ascii⦄ codec trojan_uri trojan_node trojan_parsed
      (unfold is_quic trojan_node parse_uri lower_ascii in refl)

abbrev bare_uri : String
bare_uri = "hy2://a.example:443"

abbrev bare_node : ParsedNode
unfolding parse_hysteria2 lower_ascii
bare_node = value_or blank_node (parse_hysteria2 ⦃py = ascii⦄ codec bare_uri)

bare_parsed : parse_hysteria2 ⦃py = ascii⦄ codec bare_uri ≡ ok bare_node
unfolding parse_hysteria2 lower_ascii bare_node
bare_parsed = refl

parse_hysteria2_empty_auth_example : build_outbound ⦃py = ascii⦄ bare_node ≡ err key_error
parse_hysteria2_empty_auth_example =
    parse_hysteria2_empty_auth ⦃py = ascii⦄ codec bare_uri bare_node bare_parsed
      (unfold bare_node parse_hysteria2 lower_ascii in refl)

abbrev blank_outbound : Dict Value
unfolding build_outbound lower_ascii
blank_outbound = value_or [] (build_outbound ⦃py = ascii⦄ blank_node)

blank_built : build_outbound ⦃py = ascii⦄ blank_node ≡ ok blank_outbound
unfolding build_outbound lower_ascii blank_outbound security
blank_built = refl

build_outbound_shape_example :
    (lookup "server" blank_outbound ≡ some (str "a.example"))
    × (lookup "server_port" blank_outbound ≡ some (int (pos 443)))
    × (lookup "tag" blank_outbound ≡ some (str "one"))
    × (lookup "type" blank_outbound ≡ some (str (protocol_name trojan)))
    × (is_there (lookup "tls" blank_outbound) ≡ not (is_plain (security ⦃py = ascii⦄ blank_node)))
    × (is_there (lookup "transport" blank_outbound) ≡ carries ws)
build_outbound_shape_example =
    build_outbound_shape ⦃py = ascii⦄ blank_node blank_outbound blank_built

build_outbound_missing_example :
    build_outbound ⦃py = ascii⦄ (record blank_node { params = [] }) ≡ err key_error
build_outbound_missing_example =
    build_outbound_missing ⦃py = ascii⦄ (record blank_node { params = [] }) "password"
      (unfold needed one_of in refl) (unfold has in refl)

build_outbound-succeeds_example : succeeds (build_outbound ⦃py = ascii⦄ blank_node) ≡ true
build_outbound-succeeds_example =
    build_outbound-succeeds ⦃py = ascii⦄ blank_node (λ h. cc) (unfold needed has_all has in refl)
      (unfold converts get_or lookup to_int list_of in refl)

-- A digest of 32 bytes.
abbrev digest : List ℕ → List ℕ
digest l = 7 ∷ 7 ∷ 7 ∷ l

abbrev salt : List ℕ
salt = 1 ∷ 2 ∷ 3 ∷ 4 ∷ 5 ∷ 6 ∷ 7 ∷ 8 ∷ []

deobfuscate-obfuscate_example :
    salamander_deobfuscate digest
      (9 ∷ [])
      (salamander_obfuscate digest (9 ∷ []) salt (200 ∷ 3 ∷ []))
    ≡ 200 ∷ 3 ∷ []
deobfuscate-obfuscate_example =
    deobfuscate-obfuscate digest (9 ∷ []) salt (200 ∷ 3 ∷ []) (omega arith)

zeros : ℕ → List ℕ
zeros zero = []
zeros (suc n) = 0 ∷ zeros n

length-zeros : (n : ℕ) → length (zeros n) ≡ n
unfolding zeros
length-zeros zero = refl
length-zeros (suc n) = omega (arith, length-zeros n)

quic_probe_packet_lem_example :
    (length (quic_probe_packet salt salt zeros) ≡ min_datagram)
    × (is_version_negotiation (quic_probe_packet salt salt zeros) ≡ false)
quic_probe_packet_lem_example =
    quic_probe_packet_lem salt salt zeros (omega arith) (omega arith) length-zeros
