-- ===== src/Lifetime/File/Sorted.antt =====
-- What is loaded after a save: the state, with the keys of its objects in order.
use weronity_vpn.Prelude.{
  ℕ, ◌≡◌, refl, ap, ◌∙◌, String, Option, none, some, [], ◌∷◌, All, arith, Bool-cases, inl, inr,
  ◌==◌,
}
use weronity_vpn.Prelude.Int.{pos}
use weronity_vpn.Prelude.Dict.{Dict, lookup, has, Distinct}
use weronity_vpn.Prelude.Value.{Value, obj, Fields, to_dict, fields, Runtime, to_int, get_or}
use weronity_vpn.Prelude.Json.{
  Json, IsJson, sort_keys, sort_fields, sorted, lookup-sort_fields, sort_fields-Distinct,
  sort_fields-All,
}
use weronity_vpn.Prelude.Result.{ok, ◌>>=◌}
use weronity_vpn.Lifetime.{Calendar, Entry, SeenState}
use weronity_vpn.Lifetime.Good.{Good}
use weronity_vpn.Lifetime.Observe.{IsGood, IsGoodEntry}
use weronity_vpn.Lifetime.File.{
  holds, load, load_value, loaded_of, dict_of, save, state_value, node_fields, entries_of, as_state,
}

pub to_dict-fields : (d : Dict Value) → to_dict (fields d) ≡ d
unfolding to_dict
to_dict-fields [] = refl
to_dict-fields ((k, v) ∷ d) = λ i. (k, v) ∷ to_dict-fields d i

-- An entry with its keys in order.
abbrev pub sorted_entry : Entry → Entry
sorted_entry e = to_dict (sort_fields (fields e))

pub lookup-sorted_entry : (k : String) (e : Entry) → lookup k (sorted_entry e) ≡ sorted (lookup k e)
lookup-sorted_entry k e =
    lookup-sort_fields k (fields e) ∙ ap (λ d. sorted (lookup k d)) (to_dict-fields e)

abbrev pub object_entry : Option Value → Option Entry
object_entry (some (obj fs)) = some (to_dict fs)
object_entry _ = none

abbrev pub sorted_at : Option Entry → Option Entry
sorted_at none = none
sorted_at (some e) = some (sorted_entry e)

-- Every value is an object whose dict has a property.
abbrev pub AllObjects : (String × Entry → Type 0) → Dict Value → Type 0
AllObjects P = All (λ entry. (fs : Fields) × (entry.1 ≡ obj fs) × P (entry.0, to_dict fs))

entries_of-objects :
    (P : String × Entry → Type 0) (nodes : Dict Value)
    → AllObjects P nodes
    → Distinct nodes
    → (entries : Dict Entry) × (entries_of nodes ≡ ok entries)
      × All P entries
      × Distinct entries
      × ((k : String) → lookup k entries ≡ object_entry (lookup k nodes))
      × ((k : String) → has k entries ≡ has k nodes)
unfolding entries_of lookup has
entries_of-objects P [] _ _ = ([], refl, tt, tt, (λ k. refl), (λ k. refl))
entries_of-objects P ((sid, v) ∷ nodes) ((fs, e, p), hs) (new, h) =
    let (entries, r, ps, distinct, ls, ks) = entries_of-objects P nodes hs h in
    rw e (
      (sid, to_dict fs) ∷ entries,
      rw r refl,
      (p, ps),
      (ks sid ∙ new, distinct),
      (λ k. ground (arith, ls k)),
      λ k. rw (ks k) refl,
    )

node_fields-AllObjects :
    (P : String × Entry → Type 0) (nodes : Dict Entry)
    → All (λ entry. P (entry.0, sorted_entry entry.1)) nodes
    → All
        (λ entry. (fs : Fields) × (sort_keys entry.1 ≡ obj fs) × P (entry.0, to_dict fs))
        (to_dict (node_fields nodes))
unfolding to_dict sort_keys
node_fields-AllObjects P [] _ = tt
node_fields-AllObjects P ((sid, e) ∷ nodes) (p, hs) =
    ((sort_fields (fields e), refl, p), node_fields-AllObjects P nodes hs)

lookup-node_fields :
    (k : String) (nodes : Dict Entry)
    → object_entry (sorted (lookup k (to_dict (node_fields nodes)))) ≡ sorted_at (lookup k nodes)
unfolding lookup to_dict sort_keys
lookup-node_fields k [] = refl
lookup-node_fields k ((sid, e) ∷ nodes) = elim (Bool-cases (sid == k)) [
  | inl hit ↦ rw hit refl
  | inr miss ↦ rw miss (lookup-node_fields k nodes)
]

has-node_fields :
    (k : String) (nodes : Dict Entry) → has k (to_dict (node_fields nodes)) ≡ has k nodes
unfolding has to_dict
has-node_fields k [] = refl
has-node_fields k ((sid, e) ∷ nodes) = elim (Bool-cases (sid == k)) [
  | inl hit ↦ rw hit refl
  | inr miss ↦ rw miss (has-node_fields k nodes)
]

node_fields-Distinct :
    (nodes : Dict Entry) → Distinct nodes → Distinct (to_dict (node_fields nodes))
unfolding to_dict
node_fields-Distinct [] _ = tt
node_fields-Distinct ((sid, e) ∷ nodes) (new, h) =
    (has-node_fields sid nodes ∙ new, node_fields-Distinct nodes h)

module _ (cal : Calendar) where
  sorted_entry-Good : (total : ℕ) (e : Entry) → Good cal total e → Good cal total (sorted_entry e)
  unfolding sort_keys
  sorted_entry-Good total e g = record {
    first_text = g.first_text;
    first = g.first;
    last_text = g.last_text;
    last = g.last;
    seen = g.seen;
    first_run = g.first_run;
    has_first = lookup-sorted_entry "first_seen" e ∙ ap sorted g.has_first;
    first_parses = g.first_parses;
    has_last = lookup-sorted_entry "last_seen" e ∙ ap sorted g.has_last;
    last_parses = g.last_parses;
    has_seen = lookup-sorted_entry "seen_runs" e ∙ ap sorted g.has_seen;
    has_run = lookup-sorted_entry "first_run" e ∙ ap sorted g.has_run;
    run_pos = g.run_pos;
    seen_pos = g.seen_pos;
    seen_bound = g.seen_bound;
  }

  sorted-AllGood :
      (total : ℕ) (nodes : Dict Entry)
      → All (IsGoodEntry cal total) nodes
      → All (λ entry. IsGoodEntry cal total (entry.0, sorted_entry entry.1)) nodes
  sorted-AllGood total [] _ = tt
  sorted-AllGood total ((sid, e) ∷ nodes) (g, hs) =
      (sorted_entry-Good total e g, sorted-AllGood total nodes hs)

module _ ⦃py : Runtime⦄ (json : Json) (lawful : IsJson json) (cal : Calendar) where
  load-saved :
      (s : SeenState)
      → load json (holds (save json s))
        ≡ ok (record {
          runs_total = pos s.runs_total;
          window_h = s.window_h;
          nodes = to_dict (sort_fields (node_fields s.nodes));
        })
  unfolding load load_value loaded_of save sort_keys to_dict lookup get_or to_int dict_of
  load-saved s = ap (load_value json) (lawful.loads-dumps (state_value s))

  -- If printed JSON can be read with its keys in order, a good state that is saved and loaded again is a
  -- good state, with the same count of runs and window, and with the same entries but for the order of
  -- their keys.
  pub load-save :
      (s : SeenState)
      → IsGood cal s
      → (s' : SeenState) × ((load json (holds (save json s)) >>= as_state) ≡ ok s')
        × IsGood cal s'
        × (s'.runs_total ≡ s.runs_total)
        × (s'.window_h ≡ s.window_h)
        × ((k : String) → lookup k s'.nodes ≡ sorted_at (lookup k s.nodes))
  unfolding as_state
  load-save s good =
      let stored = node_fields s.nodes in
      let (entries, r, goods, distinct, ls, _) =
        entries_of-objects (IsGoodEntry cal s.runs_total) (to_dict (sort_fields stored))
          (sort_fields-All _ stored (
            node_fields-AllObjects (IsGoodEntry cal s.runs_total) s.nodes
              (sorted-AllGood cal s.runs_total s.nodes good.entries)))
          (sort_fields-Distinct stored (node_fields-Distinct s.nodes good.distinct)) in
      (
        record { runs_total = s.runs_total; window_h = s.window_h; nodes = entries },
        rw (load-saved s, r) refl,
        record { entries = goods; distinct = distinct },
        refl,
        refl,
        λ k. ls k ∙ ap object_entry (lookup-sort_fields k stored) ∙ lookup-node_fields k s.nodes,
      )
