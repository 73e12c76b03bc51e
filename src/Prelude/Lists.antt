-- ===== src/Prelude/Lists.antt =====
-- Lists by native numbers, predicates on lists, and the laws that the components share.
use Prim.Native.Nat.{ℕ, zero, suc, ◌+◌, ◌≤◌, ◌<◌, min}
use mathlib.Core.Path.{◌≡◌, refl}
use mathlib.Core.Bool.{Bool, true, false}
use mathlib.Core.Option.{Option, none, some}
use mathlib.Core.List.{List, [], ◌∷◌, ◌++◌}
use native.Mathlib.Omega.{arith}
use weronity_vpn.Prelude.Tests.{if◌then◌else◌}

module _ {ℓ} {A : Type ℓ} where
  abbrev pub length : List A → ℕ
  length [] = 0
  length (x ∷ xs) = suc (length xs)

  -- `l[:n]`
  unfoldable pub take : ℕ → List A → List A
  take (suc n) (x ∷ xs) = x ∷ take n xs
  take _ _ = []

  -- `[x for x in l if p(x)]`
  unfoldable pub select : (A → Bool) → List A → List A
  select p [] = []
  select p (x ∷ xs) = let rest = select p xs in if p x then x ∷ rest else rest

  -- `l[i]`, and `none` past the end
  unfoldable pub get_elem? : List A → ℕ → Option A
  get_elem? [] i = none
  get_elem? (x ∷ xs) zero = some x
  get_elem? (x ∷ xs) (suc i) = get_elem? xs i

  pub get_elem?-some : (l : List A) (i : ℕ) → i < length l → (x : A) × (get_elem? l i ≡ some x)
  unfolding get_elem?
  get_elem?-some [] i h = absurd (omega arith)
  get_elem?-some (x ∷ xs) zero h = (x, refl)
  get_elem?-some (x ∷ xs) (suc i) h = get_elem?-some xs i (omega arith)

  pub get_elem?-bound : (l : List A) (i : ℕ) (x : A) → get_elem? l i ≡ some x → i < length l
  unfolding get_elem?
  get_elem?-bound [] i x h = absurd (ground arith)
  get_elem?-bound (y ∷ ys) zero x h = omega arith
  get_elem?-bound (y ∷ ys) (suc i) x h = omega (arith, get_elem?-bound ys i x h)

  -- how many entries pass a test
  unfoldable pub count : (A → Bool) → List A → ℕ
  count p [] = 0
  count p (x ∷ xs) = (if p x then 1 else 0) + count p xs

  -- the first entry that passes a test
  unfoldable pub first_where : (A → Bool) → List A → Option A
  first_where p [] = none
  first_where p (x ∷ xs) = let rest = first_where p xs in if p x then some x else rest

  unfoldable pub any_of : (A → Bool) → List A → Bool
  any_of p [] = false
  any_of p (x ∷ xs) = let rest = any_of p xs in if p x then true else rest

  pub length-append : (xs ys : List A) → length (xs ++ ys) ≡ length xs + length ys
  length-append [] ys = omega arith
  length-append (x ∷ xs) ys = omega (arith, length-append xs ys)

  pub length-take : (n : ℕ) (l : List A) → length (take n l) ≡ min n (length l)
  unfolding take
  length-take (suc n) (x ∷ xs) = omega (arith, length-take n xs)
  length-take _ _ = omega arith

  pub count-append : (p : A → Bool) (xs ys : List A) → count p (xs ++ ys) ≡ count p xs + count p ys
  unfolding count
  count-append p [] ys = omega arith
  count-append p (x ∷ xs) ys = omega (arith, count-append p xs ys)

  pub count-le-length : (p : A → Bool) (xs : List A) → count p xs ≤ length xs
  unfolding count
  count-le-length p [] = omega arith
  count-le-length p (x ∷ xs) = ground (arith, count-le-length p xs)

  pub length-select : (p : A → Bool) (xs : List A) → length (select p xs) ≡ count p xs
  unfolding select count
  length-select p [] = refl
  length-select p (x ∷ xs) = ground (arith, length-select p xs)

module _ {ℓ κ} {A : Type ℓ} (P : A → Type κ) where
  abbrev pub All : List A → Type κ
  All [] = Unit
  All (x ∷ xs) = P x × All xs

  pub All-append : (xs ys : List A) → All xs → All ys → All (xs ++ ys)
  All-append [] ys _ hy = hy
  All-append (x ∷ xs) ys (px, hx) hy = (px, All-append xs ys hx hy)

module _ {ℓ} {A : Type ℓ} where
  -- The selected entries pass the test.
  pub select-All : (q : A → Bool) (l : List A) → All (λ x. q x ≡ true) (select q l)
  unfolding select
  select-All q [] = tt
  select-All q (x ∷ l) = ground (arith, select-All q l)

module _ {ℓ κ} {A : Type ℓ} where
  pub All-map : {P Q : A → Type κ} (l : List A) → ((x : A) → P x → Q x) → All P l → All Q l
  All-map [] f _ = tt
  All-map (x ∷ l) f (h, hs) = (f x h, All-map l f hs)

  pub All-every : {P : A → Type κ} (l : List A) → ((x : A) → P x) → All P l
  All-every [] f = tt
  All-every (x ∷ l) f = (f x, All-every l f)

  pub All-both :
      {P Q R : A → Type κ} (l : List A) → ((x : A) → P x → Q x → R x) → All P l → All Q l → All R l
  All-both [] f _ _ = tt
  All-both (x ∷ l) f (p, ps) (q, qs) = (f x p q, All-both l f ps qs)

  -- What holds of all entries if a test passes.
  pub All-under :
      (P : A → Type κ) (b : Bool) (l : List A) → (b ≡ true → All P l) → All (λ x. b ≡ true → P x) l
  All-under P true l h = All-map l (λ x p _. p) (h refl)
  All-under P false l h = All-every l λ x e. absurd cc

  -- What holds of the selected entries.
  pub All-select :
      (P : A → Type κ) (q : A → Bool) (l : List A)
      → All P (select q l)
      → All (λ x. q x ≡ true → P x) l
  unfolding select
  All-select P q [] h = tt
  All-select P q (x ∷ l) h = (λ yes. ground arith, All-select P q l (ground arith))

  -- What holds for every key holds for the key of each entry.
  pub All-own {μ} :
      {K : Type μ} (P : K → A → Type κ) (key : A → K) (l : List A)
      → ((c : K) → All (P c) l)
      → All (λ x. P (key x) x) l
  All-own P key [] h = tt
  All-own P key (x ∷ l) h = ((h (key x)).0, All-own P key l λ c. (h c).1)
