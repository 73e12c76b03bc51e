-- ===== src/Prelude/Dict.antt =====
-- Python's `dict` with text keys, in insertion order.
use Prim.Native.String.{String}
use mathlib.Core.Path.{◌≡◌, refl}
use mathlib.Core.Bool.{Bool, true, false}
use mathlib.Core.Option.{Option, none, some}
use mathlib.Core.List.{List, [], ◌∷◌, ◌++◌}
use native.Mathlib.Omega.{arith}
use text.Mathlib.Text.{◌==◌}
use text.Mathlib.TextEquality.{eq_iff}
use mathlib.Core.Logic.{◌≢◌, inl, inr}
use weronity_vpn.Prelude.Tests.{if◌then◌else◌, Bool-cases}
use weronity_vpn.Prelude.Lists.{All}

abbrev pub Dict {ℓ} : Type ℓ → Type ℓ
Dict V = List (String × V)

module _ {ℓ} {V : Type ℓ} where
  -- `d.get(k)`
  unfoldable pub lookup : String → Dict V → Option V
  lookup k [] = none
  lookup k ((j, v) ∷ d) = let rest = lookup k d in if j == k then some v else rest

  -- `k in d`
  unfoldable pub has : String → Dict V → Bool
  has k [] = false
  has k ((j, v) ∷ d) = let rest = has k d in if j == k then true else rest

  -- `d[k] = v`: an old key keeps its place
  unfoldable pub insert : String → V → Dict V → Dict V
  insert k v [] = (k, v) ∷ []
  insert k v ((j, w) ∷ d) = let rest = insert k v d in if j == k then (k, v) ∷ d else (j, w) ∷ rest

  -- `del d[k]`
  unfoldable pub erase : String → Dict V → Dict V
  erase k [] = []
  erase k ((j, w) ∷ d) = let rest = erase k d in if j == k then rest else (j, w) ∷ rest

  -- `list(d.values())`
  unfoldable pub values : Dict V → List V
  values [] = []
  values ((j, v) ∷ d) = v ∷ values d

  pub lookup-insert :
      (j k : String) (v : V) (d : Dict V)
      → lookup j (insert k v d) ≡ (if k == j then some v else lookup j d)
  unfolding lookup insert
  lookup-insert j k v [] = refl
  lookup-insert j k v ((i, w) ∷ d) =
      ground (arith, eq_iff k j, eq_iff i k, eq_iff i j, lookup-insert j k v d)

  pub lookup-erase :
      (j k : String) (d : Dict V) → lookup j (erase k d) ≡ (if k == j then none else lookup j d)
  unfolding lookup erase
  lookup-erase j k [] = ground arith
  lookup-erase j k ((i, w) ∷ d) =
      ground (arith, eq_iff k j, eq_iff i k, eq_iff i j, lookup-erase j k d)

  -- a new key is put at the end
  pub insert-fresh :
      (k : String) (v : V) (d : Dict V) → has k d ≡ false → insert k v d ≡ d ++ (k, v) ∷ []
  unfolding insert has
  insert-fresh k v [] h = refl
  insert-fresh k v ((j, w) ∷ d) h = ground (arith, insert-fresh k v d)

  pub values-append : (d e : Dict V) → values (d ++ e) ≡ values d ++ values e
  unfolding values
  values-append [] e = refl
  values-append ((j, v) ∷ d) e = λ i. v ∷ values-append d e i

module _ {ℓ} {V : Type ℓ} where
  pub has-insert :
      (j k : String) (v : V) (d : Dict V)
      → has j (insert k v d) ≡ (if k == j then true else has j d)
  unfolding has insert
  has-insert j k v [] = refl
  has-insert j k v ((i, w) ∷ d) =
      ground (arith, eq_iff k j, eq_iff i k, eq_iff i j, has-insert j k v d)

  pub has-erase :
      (j k : String) (d : Dict V) → has j (erase k d) ≡ (if k == j then false else has j d)
  unfolding has erase
  has-erase j k [] = ground arith
  has-erase j k ((i, w) ∷ d) = ground (arith, eq_iff k j, eq_iff i k, eq_iff i j, has-erase j k d)

  pub lookup-has : (k : String) (d : Dict V) → has k d ≡ false → lookup k d ≡ none
  unfolding has lookup
  lookup-has k [] h = refl
  lookup-has k ((j, w) ∷ d) h = ground (arith, lookup-has k d)

  pub lookup-ne-none : (k : String) (d : Dict V) → has k d ≡ true → lookup k d ≢ none
  unfolding has lookup
  lookup-ne-none k [] h = cc
  lookup-ne-none k ((j, w) ∷ d) h = ground (arith, lookup-ne-none k d)

  -- No key is there twice, as in every dict.
  abbrev pub Distinct : Dict V → Type 0
  Distinct [] = Unit
  Distinct ((k, v) ∷ d) = (has k d ≡ false) × Distinct d

  pub insert-Distinct : (k : String) (v : V) (d : Dict V) → Distinct d → Distinct (insert k v d)
  unfolding insert
  insert-Distinct k v [] h = (unfold has in refl, tt)
  insert-Distinct k v ((j, w) ∷ d) (fresh, h) =
      ground (arith, insert-Distinct k v d h, has-insert j k v d, eq_iff j k, eq_iff k j)

  pub erase-Distinct : (k : String) (d : Dict V) → Distinct d → Distinct (erase k d)
  unfolding erase
  erase-Distinct k [] h = tt
  erase-Distinct k ((j, w) ∷ d) (fresh, h) = ground (arith, erase-Distinct k d h, has-erase j k d)

  module _ {κ} (P : String × V → Type κ) where
    pub insert-All : (k : String) (v : V) (d : Dict V) → P (k, v) → All P d → All P (insert k v d)
    unfolding insert
    insert-All k v [] p h = (p, h)
    insert-All k v ((j, w) ∷ d) p (q, h) = ground (arith, insert-All k v d p h)

    pub erase-All : (k : String) (d : Dict V) → All P d → All P (erase k d)
    unfolding erase
    erase-All k [] h = h
    erase-All k ((j, w) ∷ d) (q, h) = ground (arith, erase-All k d h)

    pub lookup-All : (k : String) (v : V) (d : Dict V) → All P d → lookup k d ≡ some v → P (k, v)
    unfolding lookup
    lookup-All k v [] h e = absurd (ground arith)
    lookup-All k v ((j, w) ∷ d) (q, h) e = elim (Bool-cases (j == k)) [
      | inl same ↦
          let ek : j ≡ k = (eq_iff j k).0 same in let ev : w ≡ v = ground arith in rw (← ek, ← ev) q
      | inr other ↦ lookup-All k v d h (ground arith)
    ]

pub ruleset dict_laws = (lookup-insert, lookup-erase)
