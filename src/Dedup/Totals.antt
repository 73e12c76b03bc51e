-- ===== src/Dedup/Totals.antt =====
-- What is removed is counted: nodes and duplicates make up the input, and so do the occurrences.
use weronity_vpn.Prelude.{
  ℕ, ◌+◌, String, ◌≡◌, ap, List, [], ◌∷◌, arith, length, length-append, Bool-cases, inl, inr,
}
use weronity_vpn.Prelude.Dict.{Dict, has, insert, values, insert-fresh, values-append}
use weronity_vpn.Prelude.Value.{Runtime}
use weronity_vpn.Models.{ParsedNode, dedup_key, stable_id}
use weronity_vpn.Dedup.{Loop, step, run, dedup, occurrences_of}

abbrev pub sum_values : Dict ℕ → ℕ
sum_values [] = 0
sum_values ((_, n) ∷ d) = n + sum_values d

-- `d[k] = d.get(k, 0) + 1` adds one to the sum.
pub sum_values-bump :
    (k : String) (d : Dict ℕ) → sum_values (insert k (occurrences_of k d + 1) d) ≡ sum_values d + 1
unfolding insert occurrences_of
sum_values-bump k [] = omega arith
sum_values-bump k ((j, n) ∷ d) = ground (arith, sum_values-bump k d)

module _ ⦃py : Runtime⦄ where
  step-length :
      (s : Loop) (n : ParsedNode)
      → length (values (step s n).seen) + (step s n).dupes ≡ length (values s.seen) + s.dupes + 1
  unfolding step values
  step-length s n = elim (Bool-cases (has (dedup_key n) s.seen)) [
    | inl old ↦ rw old (omega arith)
    | inr new ↦
        rw (new, insert-fresh (dedup_key n) n s.seen new)
          (omega (
            arith,
            ap length (values-append s.seen ((dedup_key n, n) ∷ [])),
            length-append (values s.seen) (n ∷ []),
          ))
  ]

  step-occ : (s : Loop) (n : ParsedNode) → sum_values (step s n).occ ≡ sum_values s.occ + 1
  unfolding step
  step-occ s n = ground (arith, sum_values-bump (stable_id n) s.occ)

  run_totals :
      (s : Loop) (ns : List ParsedNode)
      → (length (values (run s ns).seen) + (run s ns).dupes
          ≡ length (values s.seen) + s.dupes + length ns)
        × (sum_values (run s ns).occ ≡ sum_values s.occ + length ns)
  unfolding run
  run_totals s [] = (omega arith, omega arith)
  run_totals s (n ∷ ns) = omega (arith, run_totals (step s n) ns, step-length s n, step-occ s n)

  -- The kept nodes and the removed duplicates make up the input, and so do the counted occurrences.
  pub dedup_totals :
      (ns : List ParsedNode)
      → (length (dedup ns).nodes + (dedup ns).duplicates_removed ≡ length ns)
        × (sum_values (dedup ns).occurrences ≡ length ns)
  unfolding dedup values
  dedup_totals ns = omega (arith, run_totals (record { seen = []; occ = []; dupes = 0 }) ns)
