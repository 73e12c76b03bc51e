-- ===== src/Ping/Salamander.antt =====
-- The obfuscation of Hysteria2: what one side hides the other reads.
use weronity_vpn.Prelude.{
  ℕ, suc, ◌+◌, ◌-◌, ◌≡◌, refl, ap, true, false, [], ◌∷◌, ◌++◌, leb, arith, length, length-append,
  take,
}
use mathlib.Core.Path.{subst}
use weronity_vpn.Prelude.Xor.{bit_xor_twice}
use weronity_vpn.Ping.{
  Bytes, drop, xor_from, salamander_obfuscate, salamander_deobfuscate, salt_len, quic_header,
  quic_probe_packet, is_version_negotiation, min_datagram,
}

take-append : (xs ys : Bytes) → take (length xs) (xs ++ ys) ≡ xs
unfolding take
take-append [] [] = refl
take-append [] (y ∷ ys) = refl
take-append (x ∷ xs) ys = ap (◌∷◌ x) (take-append xs ys)

drop-append : (xs ys : Bytes) → drop (length xs) (xs ++ ys) ≡ ys
unfolding drop
drop-append [] [] = refl
drop-append [] (y ∷ ys) = refl
drop-append (x ∷ xs) ys = drop-append xs ys

length-xor_from : (key : Bytes) (i : ℕ) (bs : Bytes) → length (xor_from key i bs) ≡ length bs
unfolding xor_from
length-xor_from key i [] = refl
length-xor_from key i (b ∷ bs) = ap suc (length-xor_from key (i + 1) bs)

xor_from_twice : (key : Bytes) (i : ℕ) (bs : Bytes) → xor_from key i (xor_from key i bs) ≡ bs
unfolding xor_from
xor_from_twice key i [] = refl
xor_from_twice key i (b ∷ bs) = rw (bit_xor_twice, xor_from_twice key (i + 1) bs)

module _ (digest : Bytes → Bytes) where
  -- For any pre-shared key and any salt of eight bytes, a datagram that is hidden and then read is
  -- the packet, the empty packet included.
  pub deobfuscate-obfuscate :
      (psk salt packet : Bytes)
      → length salt ≡ salt_len
      → salamander_deobfuscate digest psk (salamander_obfuscate digest psk salt packet) ≡ packet
  unfolding salamander_deobfuscate salamander_obfuscate
  deobfuscate-obfuscate psk salt [] h =
      let short : leb (length (salt ++ [])) salt_len ≡ true =
        ground (arith, length-append salt []) in
      rw short
  deobfuscate-obfuscate psk salt (b ∷ bs) h =
      let key = digest (psk ++ salt) in
      let hidden = xor_from key 0 (b ∷ bs) in
      let long : leb (length (salt ++ hidden)) salt_len ≡ false =
        ground (arith, length-append salt hidden, length-xor_from key 0 (b ∷ bs)) in
      let front : take salt_len (salt ++ hidden) ≡ salt =
        subst (λ (n : ℕ). take n (salt ++ hidden) ≡ salt) h (take-append salt hidden) in
      let back : drop salt_len (salt ++ hidden) ≡ hidden =
        subst (λ (n : ℕ). drop n (salt ++ hidden) ≡ hidden) h (drop-append salt hidden) in
      rw (long, front, back) (xor_from_twice key 0 (b ∷ bs))

-- With connection ids of eight bytes, and random bytes of the length that is asked for, the probe has
-- the length below which a server stays silent, and is no version negotiation itself.
pub quic_probe_packet_lem :
    (dcid scid : Bytes) (padding : ℕ → Bytes)
    → length dcid ≡ 8
    → length scid ≡ 8
    → ((n : ℕ) → length (padding n) ≡ n)
    → (length (quic_probe_packet dcid scid padding) ≡ min_datagram)
      × (is_version_negotiation (quic_probe_packet dcid scid padding) ≡ false)
unfolding quic_probe_packet is_version_negotiation
quic_probe_packet_lem dcid scid padding hd hs hp =
    let header = dcid ++ 8 ∷ scid in
    let pad = padding (min_datagram - length (quic_header dcid scid)) in
    (
      omega (
        arith,
        length-append header pad,
        length-append dcid (8 ∷ scid),
        hp (min_datagram - length (quic_header dcid scid)),
      ),
      ground arith,
    )
