-- ===== src/Prelude/Json.antt =====
-- Python's `json` module, as a parameter, and what sorting the keys of an object keeps.
use Prim.Native.Nat.{Ordering}
use Prim.Native.String.{String, compare}
use mathlib.Core.Path.{◌≡◌, refl, ap, ◌∙◌}
use mathlib.Core.Logic.{inl, inr}
use mathlib.Core.Bool.{Bool, true, false}
use mathlib.Core.Option.{Option, none, some}
use native.Mathlib.Omega.{arith}
use text.Mathlib.Text.{◌==◌}
use text.Mathlib.TextEquality.{eq_iff}
use text.Mathlib.TextPositions.{compare_refl}
use weronity_vpn.Prelude.Tests.{if◌then◌else◌, Bool-cases}
use weronity_vpn.Prelude.Lists.{All}
use weronity_vpn.Prelude.Dict.{Dict, lookup, has, Distinct}
use weronity_vpn.Prelude.Result.{Result}
use weronity_vpn.Prelude.Value.{
  Value, null, bool, int, float, str, obj, arr, Fields, end, field, Items, nil, cons, to_dict,
}

abbrev pub not_gt : Ordering → Bool
not_gt Ordering.gt = false
not_gt _ = true

-- The key does not come after the other one.
abbrev pub in_order : String → String → Bool
in_order j k = not_gt (compare j k)

unfoldable pub place_field : String → Value → Fields → Fields
place_field k v end = field k v end
place_field k v (field j w fs) =
    let rest = place_field k v fs in
    if in_order k j then field k v (field j w fs) else field j w rest

-- A value with the keys of all its objects in order, as `json.dumps(v, sort_keys=True)` prints it.
unfoldable mutual
  unfolding place_field

  pub sort_keys : Value → Value
  sort_keys null = null
  sort_keys (bool b) = bool b
  sort_keys (int z) = int z
  sort_keys (float x) = float x
  sort_keys (str s) = str s
  sort_keys (obj fs) = obj (sort_fields fs)
  sort_keys (arr vs) = arr (sort_items vs)

  pub sort_fields : Fields → Fields
  sort_fields end = end
  sort_fields (field k v fs) = place_field k (sort_keys v) (sort_fields fs)

  pub sort_items : Items → Items
  sort_items nil = nil
  sort_items (cons v vs) = cons (sort_keys v) (sort_items vs)

-- The texts of files, how a value is printed with its keys in order and how a text is read (`none` is
-- a `ValueError`), and `dict` of a list that is not empty.
pub record Json : Type 1 where
  pub Text : Type 0
  pub dumps : Value → Text
  pub loads : Text → Option Value
  pub dict_of_items : Items → Result (Dict Value)

-- What is printed is read back, with the keys in order.
pub record IsJson (json : Json) : Type 0 where
  pub loads-dumps : (v : Value) → json.loads (json.dumps v) ≡ some (sort_keys v)

abbrev pub sorted : Option Value → Option Value
sorted none = none
sorted (some v) = some (sort_keys v)

in_order_refl : (j k : String) → j ≡ k → in_order j k ≡ true
in_order_refl j k e = ap (λ (x : String). in_order x k) e ∙ ap not_gt (compare_refl k)

apart : (j k : String) → in_order j k ≡ false → (j == k) ≡ false
apart j k h = elim (Bool-cases (j == k)) [
  | inl same ↦ absurd (ground (arith, in_order_refl j k ((eq_iff j k).0 same)))
  | inr other ↦ other
]

lookup-place_field :
    (k j : String) (v : Value) (fs : Fields)
    → lookup k (to_dict (place_field j v fs)) ≡ (if j == k then some v else lookup k (to_dict fs))
unfolding place_field lookup to_dict
lookup-place_field k j v end = refl
lookup-place_field k j v (field i w fs) = elim (Bool-cases (in_order j i)) [
  | inl first ↦ rw first refl
  | inr later ↦ rw later (
      ground
        (arith, lookup-place_field k j v fs, eq_iff j k, eq_iff i k, eq_iff j i, apart j i later))
]

has-place_field :
    (k j : String) (v : Value) (fs : Fields)
    → has k (to_dict (place_field j v fs)) ≡ (if j == k then true else has k (to_dict fs))
unfolding place_field has to_dict
has-place_field k j v end = refl
has-place_field k j v (field i w fs) = elim (Bool-cases (in_order j i)) [
  | inl first ↦ rw first refl
  | inr later ↦ rw later (ground (arith, has-place_field k j v fs))
]

-- Sorting the keys keeps what an object holds, its values with sorted keys too.
pub lookup-sort_fields :
    (k : String) (fs : Fields)
    → lookup k (to_dict (sort_fields fs)) ≡ sorted (lookup k (to_dict fs))
unfolding lookup to_dict sort_fields
lookup-sort_fields k end = refl
lookup-sort_fields k (field j v fs) =
    lookup-place_field k j (sort_keys v) (sort_fields fs) ∙ elim (Bool-cases (j == k)) [
      | inl hit ↦ rw hit refl
      | inr miss ↦ rw miss (lookup-sort_fields k fs)
    ]

pub has-sort_fields :
    (k : String) (fs : Fields) → has k (to_dict (sort_fields fs)) ≡ has k (to_dict fs)
unfolding has to_dict sort_fields
has-sort_fields k end = refl
has-sort_fields k (field j v fs) =
    has-place_field k j (sort_keys v) (sort_fields fs) ∙ elim (Bool-cases (j == k)) [
      | inl hit ↦ rw hit refl
      | inr miss ↦ rw miss (has-sort_fields k fs)
    ]

place_field-Distinct :
    (k : String) (v : Value) (fs : Fields)
    → has k (to_dict fs) ≡ false
    → Distinct (to_dict fs)
    → Distinct (to_dict (place_field k v fs))
unfolding place_field to_dict has
place_field-Distinct k v end new h = (refl, tt)
place_field-Distinct k v (field j w fs) new (fresh, h) = elim (Bool-cases (in_order k j)) [
  | inl first ↦ rw first (new, (fresh, h))
  | inr later ↦ rw later (
    ground (arith, has-place_field j k v fs, apart k j later, fresh),
    place_field-Distinct k v fs (ground arith) h,
  )
]

pub sort_fields-Distinct :
    (fs : Fields) → Distinct (to_dict fs) → Distinct (to_dict (sort_fields fs))
unfolding sort_fields to_dict
sort_fields-Distinct end h = tt
sort_fields-Distinct (field k v fs) (fresh, h) =
    place_field-Distinct k (sort_keys v) (sort_fields fs) (has-sort_fields k fs ∙ fresh)
      (sort_fields-Distinct fs h)

module _ (P : String × Value → Type 0) where
  place_field-All :
      (k : String) (v : Value) (fs : Fields)
      → P (k, v)
      → All P (to_dict fs)
      → All P (to_dict (place_field k v fs))
  unfolding place_field to_dict
  place_field-All k v end p h = (p, tt)
  place_field-All k v (field j w fs) p (q, h) = elim (Bool-cases (in_order k j)) [
    | inl first ↦ rw first (p, (q, h))
    | inr later ↦ rw later (q, place_field-All k v fs p h)
  ]

  pub sort_fields-All :
      (fs : Fields)
      → All (λ entry. P (entry.0, sort_keys entry.1)) (to_dict fs)
      → All P (to_dict (sort_fields fs))
  unfolding sort_fields to_dict
  sort_fields-All end h = tt
  sort_fields-All (field k v fs) (p, h) =
      place_field-All k (sort_keys v) (sort_fields fs) p (sort_fields-All fs h)
