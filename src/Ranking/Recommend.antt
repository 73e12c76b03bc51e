-- ===== src/Ranking/Recommend.antt =====
-- How many nodes of a country are recommended.
use weronity_vpn.Prelude.{
  ℕ, zero, suc, ◌+◌, ◌≤◌, ◌<◌, String, ◌≡◌, refl, sym, ap, ◌∙◌, Bool, true, false, List, [], ◌∷◌,
  ◌==◌, ◌&&◌, arith, length, count, select, length-select, map, eqb, any_of, All, take, Bool-cases,
  inl, inr, eq_iff,
}
use Prim.Native.Nat.{min}
use weronity_vpn.Prelude.Int.{pos}
use weronity_vpn.Prelude.Dict.{values}
use weronity_vpn.Prelude.Sort.{sort, count-sort}
use weronity_vpn.Models.{Node}
use weronity_vpn.Ranking.{
  Placed, country_key, group_of, group_nodes, picks, all_picks, slice, ranks_before, recommend_at,
  mark_recommended,
}
use weronity_vpn.Ranking.Groups.{
  numbered, in_country, group_of-group_nodes, any_of-all_picks, group_nodes-IsGroup,
}

abbrev pub is_at : ℕ → Placed → Bool
is_at j x = eqb j x.0

-- No two entries have a position in common.
abbrev pub Unique : List Placed → Type 0
Unique [] = Unit
Unique (x ∷ l) = (count (is_at x.0) l ≡ 0) × Unique l

pub Unique-of_counts : (l : List Placed) → ((j : ℕ) → count (is_at j) l ≤ 1) → Unique l
unfolding count
Unique-of_counts [] h = tt
Unique-of_counts (x ∷ l) h = (ground (arith, h x.0), Unique-of_counts l λ j. ground (arith, h j))

positions : List Placed → List ℕ
positions = map (λ x. x.0)

unfoldable pub chosen_in : List ℕ → Placed → Bool
unfolding any_of
chosen_in chosen x = any_of (eqb x.0) chosen

count-apart :
    (i : ℕ) (chosen : List ℕ) (l : List Placed)
    → count (is_at i) l ≡ 0
    → count (chosen_in (i ∷ chosen)) l ≡ count (chosen_in chosen) l
unfolding count chosen_in any_of
count-apart i chosen [] h = refl
count-apart i chosen (x ∷ l) h = ground (arith, count-apart i chosen l)

count_none : (l : List Placed) → count (chosen_in []) l ≡ 0
unfolding count chosen_in any_of
count_none [] = refl
count_none (x ∷ l) = omega (arith, count_none l)

-- The first entries are the ones whose positions were taken.
count-take :
    (k : ℕ) (l : List Placed)
    → Unique l
    → count (chosen_in (map (λ x. x.0) (take k l))) l ≡ min k (length l)
unfolding count take
count-take zero l u = count_none l ∙ omega arith
count-take (suc k) [] u = omega arith
count-take (suc k) (x ∷ l) (new, u) =
    let rest = map (λ y. y.0) (take k l) in
    let here : chosen_in (x.0 ∷ rest) x ≡ true = unfold chosen_in any_of in ground arith in
    rw here (omega (arith, count-apart x.0 rest l new, count-take k l u))

count-all : {A : Type 0} (l : List A) → count (λ x. true) l ≡ length l
unfolding count
count-all [] = refl
count-all (x ∷ l) = omega (arith, count-all l)

length-sort :
    (before : Placed → Placed → Bool) (l : List Placed) → length (sort before l) ≡ length l
length-sort before l =
    sym (count-all (sort before l)) ∙ (count-sort before (λ x. true) l ∙ count-all l)

-- A group recommends as many of its entries as it may, or all.
count-picks :
    (k : ℕ) (g : List Placed)
    → ((j : ℕ) → count (is_at j) g ≤ 1)
    → count (chosen_in (picks (pos k) g)) g ≡ min k (length g)
unfolding picks slice
count-picks k g h =
    let before : Placed → Placed → Bool = λ a b. ranks_before a.1 b.1 in
    let s = sort before g in
    let unique = Unique-of_counts s λ j. rw (count-sort before (is_at j) g) (h j) in
    sym (count-sort before (chosen_in (map (λ x. x.0) (take k s))) g)
    ∙ (count-take k s unique ∙ ap (min k) (length-sort before g))

pub count-select-le : (p q : Placed → Bool) (l : List Placed) → count p (select q l) ≤ count p l
unfolding count select
count-select-le p q [] = omega arith
count-select-le p q (x ∷ l) = ground (arith, count-select-le p q l)

pub count-numbered :
    (i j : ℕ) (ns : List Node)
    → (count (is_at j) (numbered i ns) ≤ 1) × (j < i → count (is_at j) (numbered i ns) ≡ 0)
unfolding count
count-numbered i j [] = (omega arith, λ h. refl)
count-numbered i j (n ∷ ns) =
    let (le, before) = count-numbered (i + 1) j ns in
    (ground (arith, before), λ h. ground (arith, before))

count-select :
    (p q : Placed → Bool) (l : List Placed) → count p (select q l) ≡ count (λ x. q x && p x) l
unfolding count select
count-select p q [] = refl
count-select p q (x ∷ l) = ground (arith, count-select p q l)

count-in_country :
    (c : String) (i : ℕ) (ns : List Node)
    → count (in_country c) (numbered i ns) ≡ count (λ n. country_key n == c) ns
unfolding count
count-in_country c i [] = refl
count-in_country c i (n ∷ ns) = omega (arith, count-in_country c (i + 1) ns)

-- Of nodes that are not recommended, the marked ones are those at the chosen positions.
count-recommend_at :
    (c : String) (chosen : List ℕ) (i : ℕ) (ns : List Node)
    → All (λ n. n.recommended ≡ false) ns
    → count (λ n. (country_key n == c) && n.recommended) (recommend_at chosen i ns)
      ≡ count (λ x. in_country c x && chosen_in chosen x) (numbered i ns)
unfolding count recommend_at chosen_in country_key
count-recommend_at c chosen i [] h = refl
count-recommend_at c chosen i (n ∷ ns) (p, h) = elim (Bool-cases (any_of (eqb i) chosen)) [
  | inl hit ↦ rw hit (omega (arith, count-recommend_at c chosen (i + 1) ns h))
  | inr miss ↦ rw (miss, p) (omega (arith, count-recommend_at c chosen (i + 1) ns h))
]

-- The country of the node at a position.
unfoldable pub country_at : List Node → ℕ → String
country_at [] j = ""
country_at (n ∷ ns) zero = country_key n
country_at (n ∷ ns) (suc j) = country_at ns j

pub numbered-right :
    (f : ℕ → String) (i : ℕ) (ns : List Node)
    → ((j : ℕ) → f (i + j) ≡ country_at ns j)
    → All (λ x. f x.0 ≡ country_key x.1) (numbered i ns)
unfolding country_at
numbered-right f i [] h = tt
numbered-right f i (n ∷ ns) h =
    (ap f (omega arith) ∙ h 0, numbered-right f (i + 1) ns λ j. ap f (omega arith) ∙ h (suc j))

same_choice :
    (c : String) (f : ℕ → String) (all one : List ℕ) (l : List Placed)
    → All (λ x. f x.0 ≡ country_key x.1) l
    → ((i : ℕ) → f i ≡ c → any_of (eqb i) all ≡ any_of (eqb i) one)
    → count (λ x. in_country c x && chosen_in all x) l
      ≡ count (λ x. in_country c x && chosen_in one x) l
unfolding count chosen_in
same_choice c f all one [] right h = refl
same_choice c f all one (x ∷ l) (p, right) h = elim (Bool-cases (country_key x.1 == c)) [
  | inl same ↦
      let e = h x.0 (p ∙ (eq_iff (country_key x.1) c).0 same) in
      rw (same, e) (omega (arith, same_choice c f all one l right h))
  | inr other ↦ rw other (omega (arith, same_choice c f all one l right h))
]

-- With a non-negative number allowed for each country, and nodes of which none is recommended yet, the
-- marking recommends that many nodes of a country, or all of them if there are fewer.
pub count-mark_recommended :
    (k : ℕ) (nodes : List Node) (c : String)
    → All (λ n. n.recommended ≡ false) nodes
    → count (λ n. (country_key n == c) && n.recommended) (mark_recommended (pos k) nodes)
      ≡ min k (count (λ n. country_key n == c) nodes)
unfolding mark_recommended
count-mark_recommended k nodes c fresh =
    let f = country_at nodes in
    let all = numbered 0 nodes in
    let right = numbered-right f 0 nodes λ j. ap f (omega arith) in
    let groups = group_nodes 0 nodes [] in
    let (distinct, fits) = group_nodes-IsGroup f 0 nodes [] right tt tt in
    let g = select (in_country c) all in
    let held : group_of c groups ≡ g = group_of-group_nodes c 0 nodes [] in
    let chosen = all_picks (pos k) (values groups) in
    let one = picks (pos k) g in
    let alone : (j : ℕ) → count (is_at j) g ≤ 1 = λ j.
      omega (arith, count-select-le (is_at j) (in_country c) all, (count-numbered 0 j nodes).0) in
    count-recommend_at c chosen 0 nodes fresh
    ∙ (same_choice c f chosen one all right (λ i e.
          any_of-all_picks f k i groups distinct fits
          ∙ ap (λ (l : List Placed). any_of (eqb i) (picks (pos k) l))
              (ap (λ (d : String). group_of d groups) e ∙ held))
        ∙ (sym (count-select (chosen_in one) (in_country c) all)
            ∙ (count-picks k g alone
                ∙ ap (min k) (length-select (in_country c) all ∙ count-in_country c 0 nodes))))
