-- ===== src/Prelude/Sort.antt =====
-- Python's stable `sort` by an order on keys, as an insertion sort.
use mathlib.Core.Path.{◌≡◌, refl}
use mathlib.Core.Logic.{inl, inr}
use mathlib.Core.Bool.{Bool, true, false}
use mathlib.Core.List.{List, [], ◌∷◌}
use native.Mathlib.Omega.{arith}
use weronity_vpn.Prelude.Tests.{if◌then◌else◌, Bool-cases}
use weronity_vpn.Prelude.Lists.{count, All}

module _ {ℓ} {A : Type ℓ} (before : A → A → Bool) where
  -- puts an entry in front of all that do not come before it, so equal keys keep their order
  unfoldable pub place : A → List A → List A
  place x [] = x ∷ []
  place x (y ∷ ys) = let rest = place x ys in if before x y then x ∷ y ∷ ys else y ∷ rest

  unfoldable pub sort : List A → List A
  unfolding place
  sort [] = []
  sort (x ∷ xs) = place x (sort xs)

  pub count-place : (p : A → Bool) (x : A) (l : List A) → count p (place x l) ≡ count p (x ∷ l)
  unfolding place count
  count-place p x [] = refl
  count-place p x (y ∷ ys) = ground (arith, count-place p x ys)

  -- Sorting keeps how many entries pass a test.
  pub count-sort : (p : A → Bool) (l : List A) → count p (sort l) ≡ count p l
  unfolding sort count
  count-sort p [] = refl
  count-sort p (x ∷ xs) = ground (arith, count-place p x (sort xs), count-sort p xs)

  module _ {κ} (P : A → Type κ) where
    pub place-All : (x : A) (l : List A) → P x → All P l → All P (place x l)
    unfolding place
    place-All x [] h hl = (h, hl)
    place-All x (y ∷ ys) h (hy, hl) = ground (arith, place-All x ys h hl)

    pub sort-All : (l : List A) → All P l → All P (sort l)
    unfolding sort
    sort-All [] h = h
    sort-All (x ∷ xs) (h, hl) = place-All x (sort xs) h (sort-All xs hl)

    -- What holds of the entries of a sorted list holds of those of the list.
    pub place-All_back : (x : A) (l : List A) → All P (place x l) → P x × All P l
    unfolding place
    place-All_back x [] h = h
    place-All_back x (y ∷ ys) h = ground (arith, place-All_back x ys)

    pub sort-All_back : (l : List A) → All P (sort l) → All P l
    unfolding sort
    sort-All_back [] h = h
    sort-All_back (x ∷ xs) h =
        let (hx, hs) = place-All_back x (sort xs) h in (hx, sort-All_back xs hs)

  -- The tests that order a list: of two entries one comes before the other, and so on along a chain.
  pub record IsOrder : Type ℓ where
    pub total : (x y : A) → before x y ≡ false → before y x ≡ true
    pub chain : (x y z : A) → before x y ≡ true → before y z ≡ true → before x z ≡ true

  -- Each entry comes before all that follow it.
  abbrev pub Sorted : List A → Type 0
  Sorted [] = Unit
  Sorted (x ∷ xs) = All (λ y. before x y ≡ true) xs × Sorted xs

  module _ (order : IsOrder) where
    before-All :
        (x y : A) (l : List A)
        → before x y ≡ true
        → All (λ z. before y z ≡ true) l
        → All (λ z. before x z ≡ true) l
    before-All x y [] h _ = tt
    before-All x y (z ∷ l) h (hz, hs) = (order.chain x y z h hz, before-All x y l h hs)

    place-Sorted : (x : A) (l : List A) → Sorted l → Sorted (place x l)
    unfolding place
    place-Sorted x [] _ = (tt, tt)
    place-Sorted x (y ∷ ys) (top, h) = elim (Bool-cases (before x y)) [
      | inl first ↦ rw first ((first, before-All x y ys first top), (top, h))
      | inr later ↦
          rw later (
            place-All (λ z. before y z ≡ true) x ys (order.total x y later) top,
            place-Sorted x ys h,
          )
    ]

    pub sort-Sorted : (l : List A) → Sorted (sort l)
    unfolding sort
    sort-Sorted [] = tt
    sort-Sorted (x ∷ xs) = place-Sorted x (sort xs) (sort-Sorted xs)
