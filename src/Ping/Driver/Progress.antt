-- ===== src/Ping/Driver/Progress.antt =====
-- The probes never block each other for good: a run can always go on until every task has ended.
use weronity_vpn.Prelude.{
  ℕ, zero, suc, ◌+◌, ◌*◌, ◌≤◌, ◌≡◌, ◌⊎◌, inl, inr, refl, ap, ◌∙◌, Option, none, some, List, [], ◌∷◌,
  map, arith, length, leb, Bool-cases,
}
use weronity_vpn.Prelude.Result.{Result}
use weronity_vpn.Ping.{PingTarget, PingResult}
use weronity_vpn.Ping.Driver.{
  Network, Task, waiting, probing, finished, Slot, Enter, Leave, here, there, System, Step, acquire,
  release, start, Steps, stay, after, results, ping_many,
}
use weronity_vpn.Ping.Driver.Interleave.{
  total, active, Enter-total, Leave-total, reached-Inv, ping_many_order,
}

-- The steps that a task has left.
abbrev pub left : Task → ℕ
left waiting = 2
left probing = 1
left (finished r) = 0

fresh_left :
    (targets : List PingTarget) → total left (map (λ t. (t, waiting)) targets) ≡ 2 * length targets
unfolding total
fresh_left [] = refl
fresh_left (t ∷ targets) = omega (arith, fresh_left targets)

module _ (net : Network) where
  Step-left : {s t : System} → Step net s t → total left s.slots ≡ suc (total left t.slots)
  Step-left (acquire e) = omega (arith, Enter-total left e)
  Step-left (release l) = omega (arith, Leave-total net left (λ r. refl) l)

  Steps-left :
      {n : ℕ} {s t : System} → Steps net n s t → total left s.slots ≡ n + total left t.slots
  Steps-left stay = omega arith
  Steps-left (after steps step) = omega (arith, Steps-left steps, Step-left step)

  find-Leave : (slots : List Slot) → 1 ≤ active slots → (new : List Slot) × Leave net slots new
  unfolding total
  find-Leave [] h = absurd (omega arith)
  find-Leave ((t, probing) ∷ slots) h = (_, here)
  find-Leave ((t, waiting) ∷ slots) h =
      let (new, l) = find-Leave slots (omega arith) in (_, there l)
  find-Leave ((t, finished r) ∷ slots) h =
      let (new, l) = find-Leave slots (omega arith) in (_, there l)

  find-Enter :
      (slots : List Slot)
      → active slots ≡ 0
      → results slots ≡ none
      → (new : List Slot) × Enter slots new
  unfolding total results
  find-Enter [] h e = absurd (ground arith)
  find-Enter ((t, probing) ∷ slots) h e = absurd (omega arith)
  find-Enter ((t, waiting) ∷ slots) h e = (_, here)
  find-Enter ((t, finished r) ∷ slots) h e =
      let (new, l) = find-Enter slots (omega arith) (ground arith) in (_, there l)

  progress :
      (permits : ℕ) (slots : List Slot)
      → 1 ≤ permits + active slots
      → results slots ≡ none
      → (t : System) × Step net (record { permits = permits; slots = slots }) t
  progress permits slots h e = elim (Bool-cases (leb 1 (active slots))) [
    | inl busy ↦ let (new, l) = find-Leave slots (ground arith) in (_, release l)
    | inr idle ↦
        let none_active : active slots ≡ 0 = ground arith in
        let (new, l) = find-Enter slots none_active e in free permits (omega arith) l
  ]
    where
      free :
          {new : List Slot} (p : ℕ)
          → 1 ≤ p
          → Enter slots new
          → (t : System) × Step net (record { permits = p; slots = slots }) t
      free zero h l = absurd (omega arith)
      free (suc p) h l = (_, acquire l)

  done_left :
      (slots : List Slot) (rs : Result (List PingResult))
      → results slots ≡ some rs
      → total left slots ≡ 0
  unfolding total results
  done_left [] rs e = refl
  done_left ((t, waiting) ∷ slots) rs e = cc
  done_left ((t, probing) ∷ slots) rs e = cc
  done_left ((t, finished r) ∷ slots) rs e = go (results slots) refl (done_left slots)
    where
      go :
          (found : Option (Result (List PingResult)))
          → results slots ≡ found
          → ((qs : Result (List PingResult)) → results slots ≡ some qs → total left slots ≡ 0)
          → total left ((t, finished r) ∷ slots) ≡ 0
      go none e' ih = absurd (ground arith)
      go (some qs) e' ih = omega (arith, ih qs e')

  -- With a concurrency of at least one no run of `ping_many` gets stuck and none goes on for ever: a run
  -- takes two steps for each target, and until then another step can be taken; after them every task has
  -- ended, and `gather` with the list of all results, or with an exception if a probe raises one.
  pub ping_many_ends :
      {n : ℕ} {s : System} (concurrency : ℕ) (targets : List PingTarget)
      → 1 ≤ concurrency
      → Steps net n (start concurrency targets) s
      → (n ≤ 2 * length targets)
        × (((n ≡ 2 * length targets) × (results s.slots ≡ some (ping_many net targets)))
            ⊎ ((t : System) × Step net s t))
  ping_many_ends {n} {s} concurrency targets some_permit steps =
      (omega (arith, Steps-left steps, fresh_left targets), go (results s.slots) refl)
    where
      go :
          (found : Option (Result (List PingResult)))
          → results s.slots ≡ found
          → ((n ≡ 2 * length targets) × (results s.slots ≡ some (ping_many net targets)))
            ⊎ ((t : System) × Step net s t)
      go none e = inr (
          progress s.permits s.slots
            (omega (arith, (reached-Inv net concurrency targets steps).bound)) e)
      go (some rs) e = inl (
        omega (arith, Steps-left steps, fresh_left targets, done_left s.slots rs e),
        e ∙ ap some ((ping_many_order net concurrency targets steps).1 rs e),
      )
