-- ===== src/Ranking/Beats.antt =====
-- The entries that one group recommends, against the others of the group.
use weronity_vpn.Prelude.{
  ℕ, zero, suc, ◌≡◌, sym, ◌∙◌, Bool, true, false, ◌≤◌, List, [], ◌∷◌, arith, count, map, any_of,
  All, All-map, All-every, All-both, take,
}
use weronity_vpn.Prelude.Int.{pos}
use weronity_vpn.Prelude.Sort.{sort, count-sort, IsOrder, Sorted, sort-Sorted, sort-All_back}
use weronity_vpn.Ranking.{Placed, picks, slice, ping_key, ranks_before}
use weronity_vpn.Ranking.Recommend.{is_at, Unique, Unique-of_counts, chosen_in}

abbrev pub outranks : Placed → Placed → Bool
outranks x y = ranks_before x.1 y.1

ranks_before-IsOrder : IsOrder outranks
unfolding ranks_before ping_key
ranks_before-IsOrder = record { total = λ x y h. ground arith; chain = λ x y z h1 h2. ground arith }

-- The chosen ones of a list outrank those that are not chosen.
abbrev pub Beaten : List ℕ → Placed → Placed → Type 0
Beaten chosen x y = chosen_in chosen y ≡ false → outranks x y ≡ true

abbrev pub Beats : List ℕ → List Placed → Placed → Type 0
Beats chosen l x = chosen_in chosen x ≡ true → All (Beaten chosen x) l

chosen_apart :
    (i : ℕ) (rest : List ℕ) (l : List Placed)
    → count (is_at i) l ≡ 0
    → All (λ x. chosen_in (i ∷ rest) x ≡ chosen_in rest x) l
unfolding count chosen_in any_of
chosen_apart i rest [] h = tt
chosen_apart i rest (x ∷ l) h = (ground arith, chosen_apart i rest l (ground arith))

none_chosen : (x : Placed) → chosen_in [] x ≡ true → ⊥
unfolding chosen_in any_of
none_chosen x hit = ground arith

not_here : (rest : List ℕ) (x : Placed) → chosen_in (x.0 ∷ rest) x ≡ false → ⊥
unfolding chosen_in any_of
not_here rest x out = ground arith

not_later :
    (i : ℕ) (rest : List ℕ) (y : Placed) → chosen_in (i ∷ rest) y ≡ false → chosen_in rest y ≡ false
unfolding chosen_in any_of
not_later i rest y h = ground arith

-- The first entries of a sorted list beat the others.
take-Beats :
    (k : ℕ) (l : List Placed)
    → Sorted outranks l
    → Unique l
    → All (Beats (map (λ x. x.0) (take k l)) l) l
unfolding take
take-Beats zero l sorted unique = All-every l (λ x hit. absurd (none_chosen x hit))
take-Beats (suc k) [] sorted unique = tt
take-Beats (suc k) (x ∷ l) (top, sorted) (new, unique) =
    let rest = map (λ y. y.0) (take k l) in
    (
      λ _. (λ out. absurd (not_here rest x out), All-map l (λ y h out. h) top),
      All-both l
          (λ y apart beats hit. (
            λ out. absurd (not_here rest x out),
            All-map l (λ z h out. h (not_later x.0 rest z out)) (beats (sym apart ∙ hit)),
          ))
          (chosen_apart x.0 rest l new) (take-Beats k l sorted unique),
    )

-- The chosen ones of a group beat the others of it.
pub picks-Beats :
    (k : ℕ) (g : List Placed)
    → ((j : ℕ) → count (is_at j) g ≤ 1)
    → All (Beats (picks (pos k) g) g) g
unfolding picks slice
picks-Beats k g alone =
    let s = sort outranks g in
    let unique = Unique-of_counts s λ j. rw (count-sort outranks (is_at j) g) (alone j) in
    let chosen = map (λ x. x.0) (take k s) in
    sort-All_back outranks (Beats chosen g) g (
      All-map s (λ x beats hit. sort-All_back outranks (Beaten chosen x) g (beats hit))
        (take-Beats k s (sort-Sorted outranks ranks_before-IsOrder g) unique))
