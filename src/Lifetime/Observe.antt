-- ===== src/Lifetime/Observe.antt =====
-- `observe` on good states: it counts the run, marks the present ids and prunes.
use weronity_vpn.Prelude.{
  ℕ, ◌+◌, ◌≡◌, refl, ap, ◌∙◌, String, true, false, Option, none, some, List, [], ◌∷◌, if◌then◌else◌,
  arith, All, Bool-cases, inl, inr, ◌==◌, eq_iff,
}
use weronity_vpn.Prelude.Dict.{
  Dict, lookup, insert, lookup-insert, Distinct, insert-Distinct, insert-All, lookup-All,
}
use weronity_vpn.Prelude.Text.{one_of}
use weronity_vpn.Prelude.Value.{Runtime}
use weronity_vpn.Prelude.Result.{Result, ok, err, overflow_error}
use weronity_vpn.Lifetime.{
  Calendar, Entry, SeenState, in_calendar, first_entry, touch, mark, mark_all, prune, observe,
}
use weronity_vpn.Lifetime.Good.{
  IsLawful, Good, Good-suc, first_entry-Good, touched, touch-eq, touched-Good, instant_last,
}
use weronity_vpn.Lifetime.Prune.{IsDated, survivor, prune_lem}

-- The ids of a set: none comes twice.
abbrev pub IsIdSet : List String → Type 0
IsIdSet [] = Unit
IsIdSet (sid ∷ sids) = (one_of sid sids ≡ false) × IsIdSet sids

abbrev pub to_option : Result Entry → Option Entry
to_option (ok e) = some e
to_option (err _) = none

one_of_tail :
    (k sid : String) (sids : List String) → one_of k sids ≡ true → one_of k (sid ∷ sids) ≡ true
unfolding one_of
one_of_tail k sid sids h = ground arith

one_of_head : (sid : String) (sids : List String) → one_of sid (sid ∷ sids) ≡ true
unfolding one_of
one_of_head sid sids = ground (arith, eq_iff sid sid)

module _ (cal : Calendar) where
  abbrev pub IsGoodEntry : ℕ → String × Entry → Type 0
  IsGoodEntry total (sid, e) = Good cal total e

  -- Every entry is one that the collector writes, and stands under its key alone.
  pub record IsGood (s : SeenState) : Type 0 where
    pub entries : All (IsGoodEntry s.runs_total) s.nodes
    pub distinct : Distinct s.nodes

  -- While ids wait to be marked, their entries are good for the runs before.
  abbrev Due : ℕ → List String → String × Entry → Type 0
  Due total sids (sid, e) = Good cal (if one_of sid sids then total else total + 1) e

  Due-tail :
      (total : ℕ) (sid : String) (sids : List String) (k : String) (e : Entry)
      → Due total (sid ∷ sids) (k, e)
      → Due total sids (k, e)
  Due-tail total sid sids k e g = elim (Bool-cases (one_of k sids)) [
    | inl waits ↦ rw waits (rw (one_of_tail k sid sids waits) at g)
    | inr done ↦ rw done (elim (Bool-cases (one_of k (sid ∷ sids))) [
      | inl here ↦ Good-suc cal total e (rw here at g)
      | inr past ↦ rw past at g
    ])
  ]

  All-Due-tail :
      (total : ℕ) (sid : String) (sids : List String) (nodes : Dict Entry)
      → All (Due total (sid ∷ sids)) nodes
      → All (Due total sids) nodes
  All-Due-tail total sid sids [] h = tt
  All-Due-tail total sid sids ((k, e) ∷ nodes) (g, h) =
      (Due-tail total sid sids k e g, All-Due-tail total sid sids nodes h)

  All-Due :
      (total : ℕ) (sids : List String) (nodes : Dict Entry)
      → All (IsGoodEntry total) nodes
      → All (Due total sids) nodes
  All-Due total sids [] h = tt
  All-Due total sids ((k, e) ∷ nodes) (g, h) = (
    elim (Bool-cases (one_of k sids)) [
      | inl waits ↦ rw waits g
      | inr other ↦ rw other (Good-suc cal total e g)
    ],
    All-Due total sids nodes h,
  )

module _ ⦃py : Runtime⦄ (cal : Calendar) (lawful : IsLawful cal) where
  All-IsDated :
      (total : ℕ) (nodes : Dict Entry) → All (IsGoodEntry cal total) nodes → All (IsDated cal) nodes
  All-IsDated total [] h = tt
  All-IsDated total ((k, e) ∷ nodes) (g, h) =
      ((g.last, instant_last cal lawful 0 total e g), All-IsDated total nodes h)

module _ ⦃py : Runtime⦄ (cal : Calendar) (now total : ℕ) where
  -- What an id's entry is after a run in which it is present.
  abbrev pub marked_entry : Option Entry → Result Entry
  marked_entry none = ok (first_entry cal now (total + 1))
  marked_entry (some e) = touch cal now e

  -- The entry of an id after the marking.
  abbrev pub after : List String → Dict Entry → String → Option Entry
  after sids nodes k =
      if one_of k sids then to_option (marked_entry (lookup k nodes)) else lookup k nodes

module _ ⦃py : Runtime⦄ (cal : Calendar) (lawful : IsLawful cal) (now total : ℕ) where
  mark_lem :
      (sid : String) (sids : List String) (nodes : Dict Entry) (found : Option Entry)
      → lookup sid nodes ≡ found
      → one_of sid sids ≡ false
      → All (Due cal total (sid ∷ sids)) nodes
      → (e : Entry) × (marked_entry cal now total found ≡ ok e)
        × (mark cal now (total + 1) nodes sid ≡ ok (insert sid e nodes))
        × Due cal total sids (sid, e)
  unfolding mark
  mark_lem sid sids nodes none at new due = (
    first_entry cal now (total + 1),
    refl,
    ground (arith, at),
    rw new (first_entry-Good cal lawful now total),
  )
  mark_lem sid sids nodes (some old) at new due =
      let waits = lookup-All (Due cal total (sid ∷ sids)) sid old nodes due at in
      let good : Good cal total old = rw (one_of_head sid sids) at waits in
      (
        touched cal now good.seen old,
        touch-eq cal lawful now total old good,
        ground (arith, at, touch-eq cal lawful now total old good),
        rw new (touched-Good cal lawful now total old good),
      )

  after-insert :
      (sid k : String) (sids : List String) (nodes : Dict Entry) (e : Entry)
      → one_of sid sids ≡ false
      → marked_entry cal now total (lookup sid nodes) ≡ ok e
      → after cal now total sids (insert sid e nodes) k ≡ after cal now total (sid ∷ sids) nodes k
  unfolding one_of
  after-insert sid k sids nodes e new run = elim (Bool-cases (sid == k)) [
    | inl same ↦
        let ek : sid ≡ k = (eq_iff sid k).0 same in
        rw (← ek, new) (ground (arith, lookup-insert sid sid e nodes, eq_iff sid sid, run))
    | inr other ↦ ground (arith, lookup-insert k sid e nodes, eq_iff sid k, eq_iff k sid)
  ]

  mark_all_lem :
      (sids : List String) (nodes : Dict Entry)
      → IsIdSet sids
      → All (Due cal total sids) nodes
      → Distinct nodes
      → (marked : Dict Entry) × (mark_all cal now (total + 1) nodes sids ≡ ok marked)
        × All (IsGoodEntry cal (total + 1)) marked
        × Distinct marked
        × ((k : String) → lookup k marked ≡ after cal now total sids nodes k)
  unfolding mark_all one_of
  mark_all_lem [] nodes _ due distinct = (nodes, refl, due, distinct, λ k. refl)
  mark_all_lem (sid ∷ sids) nodes (new, set) due distinct =
      let (e, run, step, good) = mark_lem sid sids nodes (lookup sid nodes) refl new due in
      let (marked, runs, goods, keys, found) =
        mark_all_lem sids (insert sid e nodes) set
          (insert-All (Due cal total sids) sid e nodes good
            (All-Due-tail cal total sid sids nodes due))
          (insert-Distinct sid e nodes distinct) in
      (marked, rw step runs, goods, keys, λ k. found k ∙ after-insert sid k sids nodes e new run)

-- From a good state and a set of ids, and with a window inside the calendar, `observe` does not fail. It counts the run, keeps the window
-- and leaves a good state. An id that was present has its entry made or touched, any other entry is
-- as it was, and of these the ones that are still inside the window remain.
pub observe_lem :
    ⦃py : Runtime⦄ (cal : Calendar) (lawful : IsLawful cal) (ids : List String) (now : ℕ)
    (s : SeenState)
    → IsIdSet ids
    → IsGood cal s
    → in_calendar cal now s.window_h ≡ true
    → (s' : SeenState) × (observe cal ids now s ≡ ok s')
      × (s'.runs_total ≡ s.runs_total + 1)
      × (s'.window_h ≡ s.window_h)
      × IsGood cal s'
      × ((k : String)
          → lookup k s'.nodes
            ≡ survivor cal now s.window_h (after cal now s.runs_total ids s.nodes k))
unfolding observe
observe_lem cal lawful ids now s set good fits =
    let (marked, runs, goods, keys, found) =
      mark_all_lem cal lawful now s.runs_total ids s.nodes set
        (All-Due cal s.runs_total ids s.nodes good.entries) good.distinct in
    let (kept, prunes, entries, distinct, held) =
      prune_lem cal (IsGoodEntry cal (s.runs_total + 1)) now s.window_h marked
        (All-IsDated cal lawful (s.runs_total + 1) marked goods) goods keys fits in
    (
      record s { runs_total = s.runs_total + 1; nodes = kept },
      rw (runs, prunes),
      refl,
      refl,
      record { entries = entries; distinct = distinct },
      λ k. held k ∙ ap (survivor cal now s.window_h) (found k),
    )

-- A window that reaches out of the calendar: the entries are marked, and then the pruning raises.
pub observe_overflow :
    ⦃py : Runtime⦄ (cal : Calendar) (lawful : IsLawful cal) (ids : List String) (now : ℕ)
    (s : SeenState)
    → IsIdSet ids
    → IsGood cal s
    → in_calendar cal now s.window_h ≡ false
    → observe cal ids now s ≡ err overflow_error
unfolding observe prune
observe_overflow cal lawful ids now s set good out =
    let (marked, runs, _, _, _) =
      mark_all_lem cal lawful now s.runs_total ids s.nodes set
        (All-Due cal s.runs_total ids s.nodes good.entries) good.distinct in
    rw (runs, out) refl
