-- ===== src/Dedup.antt =====
-- pipeline/dedup.py: one pass over the parsed nodes, with the first node of each key kept. The
-- proofs are in the modules below.
pub mod First
pub mod Totals
use weronity_vpn.Prelude.{
  ℕ, ◌+◌, String, true, false, Option, none, some, List, [], ◌∷◌, if◌then◌else◌,
}
use weronity_vpn.Prelude.Dict.{Dict, lookup, has, insert, values}
use weronity_vpn.Prelude.Value.{Runtime}
use weronity_vpn.Models.{ParsedNode, dedup_key, stable_id}

pub record DedupResult : Type 0 where
  pub nodes : List ParsedNode
  pub duplicates_removed : ℕ
  pub occurrences : Dict ℕ

-- The locals of the loop: `seen`, `occ` and `dupes`.
pub record Loop : Type 0 where
  pub seen : Dict ParsedNode
  pub occ : Dict ℕ
  pub dupes : ℕ

-- `occ.get(sid, 0)`
unfoldable pub occurrences_of : String → Dict ℕ → ℕ
unfolding lookup
occurrences_of k occ = elim (lookup k occ) [ none ↦ 0 | some n ↦ n ]

module _ ⦃py : Runtime⦄ where
  -- One round of the loop.
  unfoldable pub step : Loop → ParsedNode → Loop
  unfolding has insert occurrences_of
  step s node =
      let key = dedup_key node in
      let sid = stable_id node in
      let occ = insert sid (occurrences_of sid s.occ + 1) s.occ in
      if has key s.seen
      then record s { occ = occ; dupes = s.dupes + 1 }
      else record s { seen = insert key node s.seen; occ = occ }

  unfoldable pub run : Loop → List ParsedNode → Loop
  unfolding step
  run s [] = s
  run s (node ∷ rest) = run (step s node) rest

  unfoldable pub dedup : List ParsedNode → DedupResult
  unfolding run values
  dedup nodes =
      let end = run (record { seen = []; occ = []; dupes = 0 }) nodes in
      record { nodes = values end.seen; duplicates_removed = end.dupes; occurrences = end.occ }
