-- ===== src/Ranking/Groups.antt =====
-- The groups by country, and the positions that they recommend.
use weronity_vpn.Prelude.{
  ℕ, zero, suc, ◌+◌, String, ◌≡◌, refl, sym, ap, ◌∙◌, Bool, true, false, none, List, [], ◌∷◌, ◌++◌,
  ◌==◌, ◌||◌, if◌then◌else◌, arith, select, map, eqb, any_of, All, All-append, take, Bool-cases,
  inl, inr, eq_iff,
}
use weronity_vpn.Prelude.Int.{pos}
use weronity_vpn.Prelude.Dict.{
  Dict, lookup, insert, values, Distinct, insert-All, insert-Distinct, lookup-insert, lookup-has,
}
use weronity_vpn.Prelude.Sort.{sort, sort-All}
use weronity_vpn.Models.{Node}
use weronity_vpn.Ranking.{Placed, country_key, group_of, group_nodes, picks, all_picks, slice}

-- The nodes with their positions, from a first one.
abbrev pub numbered : ℕ → List Node → List Placed
numbered i [] = []
numbered i (n ∷ ns) = (i, n) ∷ numbered (i + 1) ns

abbrev pub in_country : String → Placed → Bool
in_country c x = country_key x.1 == c

append_assoc : {A : Type 0} (xs ys zs : List A) → (xs ++ ys) ++ zs ≡ xs ++ (ys ++ zs)
append_assoc [] ys zs = refl
append_assoc (x ∷ xs) ys zs = ap (λ l. x ∷ l) (append_assoc xs ys zs)

append_nil : {A : Type 0} (xs : List A) → xs ++ [] ≡ xs
append_nil [] = refl
append_nil (x ∷ xs) = ap (λ l. x ∷ l) (append_nil xs)

group_of-insert :
    (c d : String) (g : List Placed) (groups : Dict (List Placed))
    → group_of c (insert d g groups) ≡ (if d == c then g else group_of c groups)
unfolding group_of
group_of-insert c d g groups = ground (arith, lookup-insert c d g groups)

group_of_cons :
    (c d : String) (g : List Placed) (groups : Dict (List Placed))
    → group_of c ((d, g) ∷ groups) ≡ (if d == c then g else group_of c groups)
unfolding group_of lookup
group_of_cons c d g groups = ground arith

group_of_absent :
    (c : String) (groups : Dict (List Placed)) → lookup c groups ≡ none → group_of c groups ≡ []
unfolding group_of
group_of_absent c groups h = ground arith

group_step :
    (c : String) (x : Placed) (rest : List Placed) (groups : Dict (List Placed))
    → group_of c (insert (country_key x.1) (group_of (country_key x.1) groups ++ x ∷ []) groups)
        ++ rest
      ≡ group_of c groups ++ (if in_country c x then x ∷ rest else rest)
group_step c x rest groups = elim (Bool-cases (country_key x.1 == c)) [
  | inl same ↦
      let ek : country_key x.1 ≡ c = (eq_iff (country_key x.1) c).0 same in
      rw
        (
          group_of-insert c (country_key x.1) (group_of (country_key x.1) groups ++ x ∷ []) groups,
          same,
        )
        (rw ek (append_assoc (group_of c groups) (x ∷ []) rest))
  | inr other ↦
      rw
        (
          group_of-insert c (country_key x.1) (group_of (country_key x.1) groups ++ x ∷ []) groups,
          other,
        )
        refl
]

-- A group holds the nodes of its country, in their order.
pub group_of-group_nodes :
    (c : String) (i : ℕ) (ns : List Node) (groups : Dict (List Placed))
    → group_of c (group_nodes i ns groups)
      ≡ group_of c groups ++ select (in_country c) (numbered i ns)
unfolding group_nodes select
group_of-group_nodes c i [] groups = cc (append_nil (group_of c groups))
group_of-group_nodes c i (n ∷ ns) groups =
    group_of-group_nodes c (i + 1) ns
      (insert (country_key n) (group_of (country_key n) groups ++ (i, n) ∷ []) groups)
    ∙ group_step c (i, n) (select (in_country c) (numbered (i + 1) ns)) groups

-- A function from positions to countries that is right for the entries of a group.
abbrev pub IsGroup : (ℕ → String) → String × List Placed → Type 0
IsGroup country_at (d, g) = All (λ x. country_at x.0 ≡ d) g

map-All :
    (country_at : ℕ → String) (d : String) (l : List Placed)
    → All (λ x. country_at x.0 ≡ d) l
    → All (λ i. country_at i ≡ d) (map (λ x. x.0) l)
map-All country_at d [] h = tt
map-All country_at d (x ∷ l) (p, h) = (p, map-All country_at d l h)

take-All : {A : Type 0} (P : A → Type 0) (k : ℕ) (l : List A) → All P l → All P (take k l)
unfolding take
take-All P (suc k) (x ∷ l) (p, h) = (p, take-All P k l h)
take-All P zero l h = tt
take-All P (suc k) [] h = tt

picks-All :
    (country_at : ℕ → String) (k : ℕ) (d : String) (g : List Placed)
    → All (λ x. country_at x.0 ≡ d) g
    → All (λ i. country_at i ≡ d) (picks (pos k) g)
unfolding picks slice
picks-All country_at k d g h = map-All country_at d _ (take-All _ k _ (sort-All _ _ g h))

absent_elsewhere :
    (country_at : ℕ → String) (i : ℕ) (d : String) (l : List ℕ)
    → (d == country_at i) ≡ false
    → All (λ j. country_at j ≡ d) l
    → any_of (eqb i) l ≡ false
unfolding any_of
absent_elsewhere country_at i d [] other h = refl
absent_elsewhere country_at i d (j ∷ l) other (p, h) = elim (Bool-cases (eqb i j)) [
  | inl same ↦
      let e : i ≡ j = ground arith in
      absurd (ground (arith, (eq_iff d (country_at i)).1 (sym (ap country_at e ∙ p))))
  | inr apart ↦ rw apart (absent_elsewhere country_at i d l other h)
]

any_of-append : (p : ℕ → Bool) (xs ys : List ℕ) → any_of p (xs ++ ys) ≡ (any_of p xs || any_of p ys)
unfolding any_of
any_of-append p [] ys = refl
any_of-append p (x ∷ xs) ys = ground (arith, any_of-append p xs ys)

or_false : (b : Bool) → (b || false) ≡ b
or_false true = refl
or_false false = refl

picks_nil : (k : ℕ) → picks (pos k) [] ≡ []
unfolding picks slice sort take
picks_nil zero = refl
picks_nil (suc k) = refl

-- A position is recommended exactly if the group of its country recommends it.
pub any_of-all_picks :
    (country_at : ℕ → String) (k i : ℕ) (groups : Dict (List Placed))
    → Distinct groups
    → All (IsGroup country_at) groups
    → any_of (eqb i) (all_picks (pos k) (values groups))
      ≡ any_of (eqb i) (picks (pos k) (group_of (country_at i) groups))
unfolding all_picks values any_of group_of
any_of-all_picks country_at k i [] distinct h = rw (picks_nil k)
any_of-all_picks country_at k i ((d, g) ∷ groups) (new, distinct) (p, h) =
    any_of-append (eqb i) (picks (pos k) g) (all_picks (pos k) (values groups))
    ∙ elim (Bool-cases (d == country_at i)) [
      | inl same ↦
          let ek : d ≡ country_at i = (eq_iff d (country_at i)).0 same in
          let none_left : lookup (country_at i) groups ≡ none =
            rw (← ek) (lookup-has d groups new) in
          let rest : any_of (eqb i) (all_picks (pos k) (values groups)) ≡ false =
            any_of-all_picks country_at k i groups distinct h
            ∙ rw (group_of_absent (country_at i) groups none_left) (rw (picks_nil k) refl) in
          rw (group_of_cons (country_at i) d g groups, same, rest) (or_false _)
      | inr other ↦
          rw
            (
              group_of_cons (country_at i) d g groups,
              other,
              absent_elsewhere country_at i d _ other (picks-All country_at k d g p),
            )
            (any_of-all_picks country_at k i groups distinct h)
    ]

group_of-IsGroup :
    (country_at : ℕ → String) (c : String) (groups : Dict (List Placed))
    → All (IsGroup country_at) groups
    → All (λ x. country_at x.0 ≡ c) (group_of c groups)
unfolding group_of lookup
group_of-IsGroup country_at c [] h = tt
group_of-IsGroup country_at c ((d, g) ∷ groups) (p, h) = elim (Bool-cases (d == c)) [
  | inl same ↦ rw (group_of_cons c d g groups, same) (rw (← (eq_iff d c).0 same) p)
  | inr other ↦ rw (group_of_cons c d g groups, other) (group_of-IsGroup country_at c groups h)
]

-- The groups stand for one country each, and hold only its positions.
pub group_nodes-IsGroup :
    (country_at : ℕ → String) (i : ℕ) (ns : List Node) (groups : Dict (List Placed))
    → All (λ x. country_at x.0 ≡ country_key x.1) (numbered i ns)
    → Distinct groups
    → All (IsGroup country_at) groups
    → Distinct (group_nodes i ns groups) × All (IsGroup country_at) (group_nodes i ns groups)
unfolding group_nodes
group_nodes-IsGroup country_at i [] groups right distinct h = (distinct, h)
group_nodes-IsGroup country_at i (n ∷ ns) groups (p, right) distinct h =
    let c = country_key n in
    let g = group_of c groups ++ (i, n) ∷ [] in
    let fits =
      All-append _ (group_of c groups) ((i, n) ∷ []) (group_of-IsGroup country_at c groups h)
        (p, tt) in
    group_nodes-IsGroup country_at (i + 1) ns (insert c g groups) right
      (insert-Distinct c g groups distinct) (insert-All (IsGroup country_at) c g groups fits h)
