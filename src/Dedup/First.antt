-- ===== src/Dedup/First.antt =====
-- Which node of a key is kept, and that no key is kept twice.
use weronity_vpn.Prelude.{
  ◌≤◌, String, ◌≡◌, refl, Bool, true, false, Option, none, some, List, [], ◌∷◌, ◌++◌, arith, ◌==◌,
  eq_iff, if◌then◌else◌, first_where, count, count-append, Bool-cases, inl, inr, ◌≢◌, All,
  All-append,
}
use weronity_vpn.Prelude.Dict.{Dict, has, values, insert-fresh, values-append}
use weronity_vpn.Prelude.Value.{Runtime}
use weronity_vpn.Models.{ParsedNode, dedup_key}
use weronity_vpn.Dedup.{Loop, step, run, dedup}

module _ ⦃py : Runtime⦄ where
  abbrev pub has_key : String → ParsedNode → Bool
  has_key k n = dedup_key n == k

  -- Every entry of the dict stands under its node's own key.
  abbrev Keyed : Dict ParsedNode → Type 0
  Keyed = All (λ (k, n). dedup_key n ≡ k)

  -- `a if a is not None else b`
  abbrev pub or_later : Option ParsedNode → Option ParsedNode → Option ParsedNode
  or_later none b = b
  or_later (some a) b = some a

  first_where-append :
      (k : String) (xs : List ParsedNode) (n : ParsedNode)
      → first_where (has_key k) (xs ++ n ∷ [])
        ≡ or_later (first_where (has_key k) xs) (if has_key k n then some n else none)
  unfolding first_where
  first_where-append k [] n = refl
  first_where-append k (x ∷ xs) n = ground (arith, first_where-append k xs n)

  count-values :
      (k : String) (d : Dict ParsedNode)
      → Keyed d
      → has k d ≡ false
      → count (has_key k) (values d) ≡ 0
  unfolding has values count
  count-values k [] _ h = refl
  count-values k ((j, n) ∷ d) (e, ks) h =
      ground (arith, count-values k d ks, eq_iff j k, eq_iff (dedup_key n) k)

  first_where-has :
      (k : String) (d : Dict ParsedNode)
      → Keyed d
      → has k d ≡ true
      → first_where (has_key k) (values d) ≢ none
  unfolding has values first_where
  first_where-has k [] _ h = cc
  first_where-has k ((j, n) ∷ d) (e, ks) h =
      ground (arith, first_where-has k d ks, eq_iff j k, eq_iff (dedup_key n) k)

  step-Keyed : (s : Loop) (n : ParsedNode) → Keyed s.seen → Keyed (step s n).seen
  unfolding step
  step-Keyed s n ks = elim (Bool-cases (has (dedup_key n) s.seen)) [
    | inl old ↦ rw old ks
    | inr new ↦
        rw (new, insert-fresh (dedup_key n) n s.seen new)
          (All-append (λ (k, n). dedup_key n ≡ k) s.seen _ ks (refl, tt))
  ]

  pub step-values :
      (s : Loop) (n : ParsedNode)
      → values (step s n).seen
        ≡ (if has (dedup_key n) s.seen then values s.seen else values s.seen ++ n ∷ [])
  unfolding step values
  step-values s n = elim (Bool-cases (has (dedup_key n) s.seen)) [
    | inl old ↦ rw old
    | inr new ↦ rw (new, insert-fresh (dedup_key n) n s.seen new) (values-append s.seen _)
  ]

  step-first_where :
      (k : String) (s : Loop) (n : ParsedNode)
      → Keyed s.seen
      → first_where (has_key k) (values (step s n).seen)
        ≡ or_later (first_where (has_key k) (values s.seen)) (if has_key k n then some n else none)
  step-first_where k s n ks = elim (Bool-cases (has (dedup_key n) s.seen)) [
    | inl old ↦
        let held = λ (e : dedup_key n ≡ k). first_where-has k s.seen ks (rw e at old) in
        rw (step-values, old) (ground (arith, eq_iff (dedup_key n) k, held))
    | inr new ↦ rw (step-values, new) (first_where-append k (values s.seen) n)
  ]

  step-count :
      (k : String) (s : Loop) (n : ParsedNode)
      → Keyed s.seen
      → count (has_key k) (values s.seen) ≤ 1
      → count (has_key k) (values (step s n).seen) ≤ 1
  unfolding count
  step-count k s n ks h = elim (Bool-cases (has (dedup_key n) s.seen)) [
    | inl old ↦ rw (step-values, old) h
    | inr new ↦
        let none_yet = λ (e : dedup_key n ≡ k). count-values k s.seen ks (rw e at new) in
        rw (step-values, new)
          (ground (
            arith,
            count-append (has_key k) (values s.seen) (n ∷ []),
            eq_iff (dedup_key n) k,
            none_yet,
          ))
  ]

  run-first_where :
      (k : String) (s : Loop) (ns : List ParsedNode)
      → Keyed s.seen
      → first_where (has_key k) (values (run s ns).seen)
        ≡ or_later (first_where (has_key k) (values s.seen)) (first_where (has_key k) ns)
  unfolding run first_where
  run-first_where k s [] ks = ground arith
  run-first_where k s (n ∷ ns) ks =
      ground (arith, run-first_where k (step s n) ns (step-Keyed s n ks), step-first_where k s n ks)

  run-count :
      (k : String) (s : Loop) (ns : List ParsedNode)
      → Keyed s.seen
      → count (has_key k) (values s.seen) ≤ 1
      → count (has_key k) (values (run s ns).seen) ≤ 1
  unfolding run
  run-count k s [] ks h = h
  run-count k s (n ∷ ns) ks h =
      run-count k (step s n) ns (step-Keyed s n ks) (step-count k s n ks h)

  -- For every key, the first kept node that has it is the first parsed node that has it, so a key
  -- of the input is kept and its first node stands for it. At most one node of a key is kept.
  pub dedup_keeps_first :
      (k : String) (ns : List ParsedNode)
      → (first_where (has_key k) (dedup ns).nodes ≡ first_where (has_key k) ns)
        × (count (has_key k) (dedup ns).nodes ≤ 1)
  unfolding dedup values count first_where
  dedup_keeps_first k ns = (run-first_where k _ ns tt, run-count k _ ns tt (omega arith))
