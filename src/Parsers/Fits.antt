-- ===== src/Parsers/Fits.antt =====
-- The parameters that the parsers of URIs collect: those that are kept convert as the outbounds ask.
use weronity_vpn.Prelude.{
  String, ◌≡◌, refl, Bool, true, false, Option, none, some, [], ◌∷◌, ◌||◌, ◌==◌, if◌then◌else◌,
  arith, All, All-append, Bool-cases, inl, inr,
}
use weronity_vpn.Prelude.Int.{pos}
use weronity_vpn.Prelude.Dict.{Dict, lookup, lookup-All}
use weronity_vpn.Prelude.Text.{one_of}
use weronity_vpn.Prelude.Value.{Value, int, arr, nil, Runtime, get_or, to_int}
use weronity_vpn.Prelude.Result.{succeeds}
use weronity_vpn.Models.{Transport, tcp, ws, grpc, httpupgrade, h2, mkcp, quic}
use weronity_vpn.Outbound.{list_of}
use weronity_vpn.Outbound.Shape.{is_there}
use weronity_vpn.Outbound.Credentials.{converts}
use weronity_vpn.Parsers.Url.{Codec}
use weronity_vpn.Parsers.Common.{is_blank, without_blanks, first}
use weronity_vpn.Parsers.Trojan.{trojan_params}
use weronity_vpn.Parsers.Hysteria2.{hysteria2_params, obfs_params, optional_int}
use weronity_vpn.Parsers.Tuic.{tuic_params}
use weronity_vpn.Parsers.Vmess.{vmess_params, vmess_transport}
use weronity_vpn.Parsers.Vless.{transport_params, vless_params}

-- What the outbound's conversions ask of one parameter.
unfoldable pub fits : ⦃py : Runtime⦄ → String → Value → Bool
unfolding one_of
fits k v =
    if k == "alpn"
    then succeeds (list_of v)
    else if one_of k ("alter_id" ∷ "up_mbps" ∷ "down_mbps" ∷ [])
    then is_there (to_int v)
    else true

module _ ⦃py : Runtime⦄ where
  abbrev pub Fits : String × Value → Type 0
  Fits (k, v) = (is_blank v || fits k v) ≡ true

  abbrev pub Fits' : String × Value → Type 0
  Fits' (k, v) = fits k v ≡ true

  pub without_blanks-Fits : (d : Dict Value) → All Fits d → All Fits' (without_blanks d)
  unfolding without_blanks
  without_blanks-Fits [] h = tt
  without_blanks-Fits ((k, v) ∷ d) (p, h) = elim (Bool-cases (is_blank v)) [
    | inl blank ↦ rw blank (without_blanks-Fits d h)
    | inr present ↦ rw present (rw present at p, without_blanks-Fits d h)
  ]

  fits-get_or :
      (k : String) (v : Value) (d : Dict Value)
      → fits k v ≡ true
      → All Fits' d
      → fits k (get_or v k d) ≡ true
  unfolding get_or
  fits-get_or k v d h hd = go (lookup k d) refl
    where
      go :
          (found : Option Value)
          → lookup k d ≡ found
          → fits k (elim found [ none ↦ v | some w ↦ w ]) ≡ true
      go none e = h
      go (some w) e = lookup-All Fits' k w d hd e

  pub converts_of_Fits : (d : Dict Value) → All Fits' d → converts d ≡ true
  unfolding converts fits one_of list_of to_int
  converts_of_Fits d h = ground (
    arith,
    fits-get_or "alter_id" (int (pos 0)) d refl h,
    fits-get_or "up_mbps" (int (pos 0)) d refl h,
    fits-get_or "down_mbps" (int (pos 0)) d refl h,
    fits-get_or "alpn" (arr nil) d refl h,
  )

  pub transport_params-Fits : (t : Transport) (q : Dict String) → All Fits (transport_params t q)
  unfolding transport_params fits one_of is_blank
  transport_params-Fits grpc q = (ground arith, tt)
  transport_params-Fits ws q = (ground arith, (ground arith, tt))
  transport_params-Fits httpupgrade q = (ground arith, (ground arith, tt))
  transport_params-Fits h2 q = (ground arith, (ground arith, tt))
  transport_params-Fits tcp q = tt
  transport_params-Fits mkcp q = tt
  transport_params-Fits quic q = tt

  choice_Fits : (test : Bool) (d : Dict Value) → All Fits d → All Fits (if test then d else [])
  choice_Fits true d h = h
  choice_Fits false d h = tt

  pub vless_params-Fits :
      (codec : Codec) (uuid security : String) (t : Transport) (q : Dict String)
      → All Fits (vless_params codec uuid security t q)
  unfolding vless_params fits one_of is_blank list_of
  vless_params-Fits codec uuid security t q = (
    ground arith,
    (
      ground arith,
      (
        ground arith,
        (
          ground arith,
          (
            ground arith,
            (
              ground arith,
              (
                ground arith,
                (
                  ground arith,
                  All-append Fits _ _
                      (choice_Fits (security == "reality") _ (ground arith, (ground arith, tt)))
                      (transport_params-Fits t q),
                ),
              ),
            ),
          ),
        ),
      ),
    ),
  )

  pub trojan_params-Fits :
      (codec : Codec) (password host : String) (t : Transport) (q : Dict String)
      → All Fits (trojan_params codec password host t q)
  unfolding trojan_params fits one_of is_blank list_of
  trojan_params-Fits codec password host t q = (
    ground arith,
    (
      ground arith,
      (ground arith, (ground arith, (ground arith, (ground arith, transport_params-Fits t q)))),
    ),
  )

  pub obfs_params-Fits : (codec : Codec) (q : Dict String) → All Fits (obfs_params codec q)
  unfolding obfs_params fits is_blank
  obfs_params-Fits codec q =
      elim (Bool-cases
        (one_of (py.lower (first q ("obfs" ∷ []))) ("salamander" ∷ "salamanderv2" ∷ []))) [
          | inl on ↦ rw on (ground arith, (ground arith, tt))
          | inr off ↦ rw off tt
        ]

  pub hysteria2_params-Fits :
      (codec : Codec) (auth : String) (q : Dict String) → All Fits (hysteria2_params codec auth q)
  unfolding hysteria2_params optional_int fits one_of is_blank list_of to_int
  hysteria2_params-Fits codec auth q = (
    ground arith,
    (
      ground arith,
      (
        ground arith,
        (
          ground arith,
          (
            ground arith,
            (
              ground arith,
              (ground arith, (ground arith, (ground arith, obfs_params-Fits codec q))),
            ),
          ),
        ),
      ),
    ),
  )

  pub tuic_params-Fits :
      (codec : Codec) (uuid password : String) (q : Dict String)
      → All Fits (tuic_params codec uuid password q)
  unfolding tuic_params fits one_of is_blank list_of
  tuic_params-Fits codec uuid password q = (
    ground arith,
    (
      ground arith,
      (
        ground arith,
        (ground arith, (ground arith, (ground arith, (ground arith, (ground arith, tt))))),
      ),
    ),
  )

  pub vmess_transport-Fits :
      (codec : Codec) (t : Transport) (o : Dict Value) → All Fits (vmess_transport codec t o)
  unfolding vmess_transport fits one_of is_blank
  vmess_transport-Fits codec grpc o = (ground arith, tt)
  vmess_transport-Fits codec ws o = (ground arith, (ground arith, tt))
  vmess_transport-Fits codec httpupgrade o = (ground arith, (ground arith, tt))
  vmess_transport-Fits codec h2 o = (ground arith, (ground arith, tt))
  vmess_transport-Fits codec tcp o = tt
  vmess_transport-Fits codec mkcp o = tt
  vmess_transport-Fits codec quic o = tt

  pub vmess_params-Fits :
      (codec : Codec) (uuid : String) (t : Transport) (o : Dict Value)
      → All Fits (vmess_params codec uuid t o)
  unfolding vmess_params fits one_of is_blank list_of to_int
  vmess_params-Fits codec uuid t o = (
    ground arith,
    (
      ground arith,
      (
        ground arith,
        (
          ground arith,
          (ground arith, (ground arith, (ground arith, vmess_transport-Fits codec t o))),
        ),
      ),
    ),
  )
