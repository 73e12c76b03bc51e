-- ===== src/Ranking/Best.antt =====
-- Which nodes of a country are recommended, and which are left out.
use weronity_vpn.Prelude.{
  ℕ, ◌+◌, String, ◌≡◌, refl, sym, ap, ◌∙◌, Bool, true, false, ◌≤◌, List, [], ◌∷◌, arith, count,
  select, eqb, any_of, All, All-map, All-both, All-under, All-select, All-own, eq_iff,
}
use weronity_vpn.Prelude.Int.{pos}
use weronity_vpn.Prelude.Dict.{values}
use weronity_vpn.Models.{Node}
use weronity_vpn.Ranking.{
  Placed, country_key, group_of, group_nodes, picks, all_picks, ping_key, ranks_before,
  recommend_at, mark_recommended,
}
use weronity_vpn.Ranking.Groups.{
  numbered, in_country, group_of-group_nodes, any_of-all_picks, group_nodes-IsGroup,
}
use weronity_vpn.Ranking.Recommend.{
  is_at, chosen_in, count-select-le, count-numbered, country_at, numbered-right,
}
use weronity_vpn.Ranking.Beats.{outranks, Beaten, Beats, picks-Beats}

-- A node after the marking.
abbrev mark : Bool → Node → Node
mark true n = record n { recommended = true }
mark false n = n

abbrev marked : List ℕ → Placed → Node
marked chosen x = mark (chosen_in chosen x) x.1

recommend_at-All :
    (P : Node → Type 0) (chosen : List ℕ) (i : ℕ) (ns : List Node)
    → All (λ x. P (marked chosen x)) (numbered i ns)
    → All P (recommend_at chosen i ns)
unfolding recommend_at chosen_in
recommend_at-All P chosen i [] h = tt
recommend_at-All P chosen i (n ∷ ns) (p, h) =
    ground (arith, p, recommend_at-All P chosen (i + 1) ns h)

-- If the first node is recommended and the second one of its country is not, the first outranks it.
abbrev Fair : Node → Node → Type 0
Fair a b =
    country_key a ≡ country_key b
    → a.recommended ≡ true
    → b.recommended ≡ false
    → ranks_before a b ≡ true

mark-Fair :
    (hit miss : Bool) (a b : Node)
    → a.recommended ≡ false
    → (country_key a ≡ country_key b → hit ≡ true → miss ≡ false → ranks_before a b ≡ true)
    → Fair (mark hit a) (mark miss b)
unfolding country_key ranks_before ping_key
mark-Fair true false a b fresh fair same _ _ = fair same refl refl
mark-Fair true true a b fresh fair same _ out = absurd cc
mark-Fair false miss a b fresh fair same hit _ = absurd cc

-- The entries of a country beat the others of it.
country-Beats :
    (k : ℕ) (c : String) (all : List Placed)
    → ((j : ℕ) → count (is_at j) all ≤ 1)
    → All
        (λ x.
          in_country c x ≡ true
          → chosen_in (picks (pos k) (select (in_country c) all)) x ≡ true
          → All
              (λ y. in_country c y ≡ true → Beaten (picks (pos k) (select (in_country c) all)) x y)
              all)
        all
country-Beats k c all alone =
    let g = select (in_country c) all in
    let chosen = picks (pos k) g in
    let once : (j : ℕ) → count (is_at j) g ≤ 1 =
      λ j. omega (arith, count-select-le (is_at j) (in_country c) all, alone j) in
    All-map all
      (λ x beats here hit. All-select (Beaten chosen x) (in_country c) all (beats here hit))
      (All-select (Beats chosen g) (in_country c) all (picks-Beats k g once))

-- The choice over all groups is, for a node, the choice of the group of its country.
choice-eq :
    (k : ℕ) (nodes : List Node)
    → All
        (λ x.
          chosen_in (all_picks (pos k) (values (group_nodes 0 nodes []))) x
          ≡ chosen_in (picks (pos k) (select (in_country (country_key x.1)) (numbered 0 nodes))) x)
        (numbered 0 nodes)
unfolding chosen_in select group_of
choice-eq k nodes =
    let f = country_at nodes in
    let right = numbered-right f 0 nodes λ j. ap f (omega arith) in
    let groups = group_nodes 0 nodes [] in
    let (distinct, fits) = group_nodes-IsGroup f 0 nodes [] right tt tt in
    All-map (numbered 0 nodes)
      (λ x at.
        any_of-all_picks f k x.0 groups distinct fits
        ∙ ap (λ (l : List Placed). any_of (eqb x.0) (picks (pos k) l))
            (ap (λ (d : String). group_of d groups) at
              ∙ group_of-group_nodes (country_key x.1) 0 nodes []))
      right

numbered-All :
    (P : Node → Type 0) (i : ℕ) (ns : List Node) → All P ns → All (λ x. P x.1) (numbered i ns)
numbered-All P i [] h = tt
numbered-All P i (n ∷ ns) (p, h) = (p, numbered-All P (i + 1) ns h)

own_in_country : (x : Placed) → in_country (country_key x.1) x ≡ true
own_in_country x = (eq_iff (country_key x.1) (country_key x.1)).1 refl

numbered-Fair :
    (k : ℕ) (nodes : List Node)
    → All
        (λ x.
          All
            (λ y.
              country_key x.1 ≡ country_key y.1
              → chosen_in (all_picks (pos k) (values (group_nodes 0 nodes []))) x ≡ true
              → chosen_in (all_picks (pos k) (values (group_nodes 0 nodes []))) y ≡ false
              → outranks x y ≡ true)
            (numbered 0 nodes))
        (numbered 0 nodes)
numbered-Fair k nodes =
    let all = numbered 0 nodes in
    let one = λ (c : String). picks (pos k) (select (in_country c) all) in
    let choices = choice-eq k nodes in
    All-both all
      (λ x beats at_x.
        All-both all
          (λ y beaten at_y same hit out.
            beaten (sym at_x ∙ hit) ((eq_iff (country_key y.1) (country_key x.1)).1 (sym same))
              (ap (λ (c : String). chosen_in (one c) y) same ∙ (sym at_y ∙ out)))
          (All-under
            (λ y. in_country (country_key x.1) y ≡ true → Beaten (one (country_key x.1)) x y)
            (chosen_in (one (country_key x.1)) x) all (beats (own_in_country x)))
          choices)
      (All-own
        (λ c x.
          in_country c x ≡ true
          → chosen_in (one c) x ≡ true
          → All (λ y. in_country c y ≡ true → Beaten (one c) x y) all)
        (λ x. country_key x.1) all (λ c. country-Beats k c all λ j. (count-numbered 0 j nodes).0))
      choices

-- With a non-negative number allowed for each country, and nodes of which none is recommended yet: of
-- two nodes of a country after the marking, of which one is recommended and the other is not, the
-- recommended one ranks before the other. It has a higher stability, or the same and a ping that is not
-- longer.
pub mark_recommended-Fair :
    (k : ℕ) (nodes : List Node)
    → All (λ n. n.recommended ≡ false) nodes
    → All
        (λ a.
          All
            (λ b.
              country_key a ≡ country_key b
              → a.recommended ≡ true
              → b.recommended ≡ false
              → ranks_before a b ≡ true)
            (mark_recommended (pos k) nodes))
        (mark_recommended (pos k) nodes)
unfolding mark_recommended
mark_recommended-Fair k nodes fresh =
    let all = numbered 0 nodes in
    let chosen = all_picks (pos k) (values (group_nodes 0 nodes [])) in
    recommend_at-All (λ a. All (Fair a) (recommend_at chosen 0 nodes)) chosen 0 nodes
      (All-both all
        (λ x is_fresh fair. recommend_at-All (Fair (marked chosen x)) chosen 0 nodes (
          All-map all
            (λ y f. mark-Fair (chosen_in chosen x) (chosen_in chosen y) x.1 y.1 is_fresh f) fair))
        (numbered-All (λ n. n.recommended ≡ false) 0 nodes fresh) (numbered-Fair k nodes))
