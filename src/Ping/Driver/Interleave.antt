-- ===== src/Ping/Driver/Interleave.antt =====
-- However the probes are interleaved: the semaphore bounds them, and the results stand in the order of
-- the targets.
use weronity_vpn.Prelude.{
  ℕ, ◌+◌, ◌≤◌, ◌≡◌, refl, sym, ap, ◌∙◌, Option, none, some, List, [], ◌∷◌, map, arith, All,
}
use weronity_vpn.Ping.{PingTarget, PingResult}
use weronity_vpn.Ping.Driver.{
  Network, probe, Task, waiting, probing, finished, Slot, Enter, Leave, here, there, System, Step,
  acquire, release, start, Steps, stay, after, results, ping_many, joined,
}
use weronity_vpn.Prelude.Result.{Result, some_inj}

-- The sum of a weight over the tasks.
unfoldable pub total : (Task → ℕ) → List Slot → ℕ
total w [] = 0
total w ((t, k) ∷ slots) = w k + total w slots

abbrev pub inside : Task → ℕ
inside probing = 1
inside _ = 0

-- How many probes run.
abbrev pub active : List Slot → ℕ
active = total inside

abbrev pub targets_of : List Slot → List PingTarget
targets_of = map (λ s. s.0)

pub Enter-total :
    {old new : List Slot} (w : Task → ℕ)
    → Enter old new
    → total w new + w waiting ≡ total w old + w probing
unfolding total
Enter-total w here = omega arith
Enter-total w (there e) = omega (arith, Enter-total w e)

Enter-targets : {old new : List Slot} → Enter old new → targets_of new ≡ targets_of old
Enter-targets here = refl
Enter-targets (there {s} e) = ap (λ (ts : List PingTarget). s.0 ∷ ts) (Enter-targets e)

module _ (net : Network) where
  pub Leave-total :
      {old new : List Slot} (w : Task → ℕ)
      → ((r : Result PingResult) → w (finished r) ≡ 0)
      → Leave net old new
      → total w new + w probing ≡ total w old
  unfolding total
  Leave-total w none_left (here {t}) = omega (arith, none_left (probe net t))
  Leave-total w none_left (there l) = omega (arith, Leave-total w none_left l)

  Leave-targets : {old new : List Slot} → Leave net old new → targets_of new ≡ targets_of old
  Leave-targets here = refl
  Leave-targets (there {s} l) = ap (λ (ts : List PingTarget). s.0 ∷ ts) (Leave-targets l)

  -- A result is the one of the task's own target.
  abbrev pub IsOwn : Slot → Type 0
  IsOwn (t, finished r) = r ≡ probe net t
  IsOwn _ = Unit

  Enter-IsOwn : {old new : List Slot} → Enter old new → All IsOwn old → All IsOwn new
  Enter-IsOwn here (_, own) = (tt, own)
  Enter-IsOwn (there e) (o, own) = (o, Enter-IsOwn e own)

  Leave-IsOwn : {old new : List Slot} → Leave net old new → All IsOwn old → All IsOwn new
  Leave-IsOwn here (_, own) = (refl, own)
  Leave-IsOwn (there l) (o, own) = (o, Leave-IsOwn l own)

  -- The counter and the running probes make up the concurrency, the tasks are those of the targets, and
  -- a result is its target's.
  pub record Inv (concurrency : ℕ) (targets : List PingTarget) (s : System) : Type 0 where
    pub bound : s.permits + active s.slots ≡ concurrency
    pub same : targets_of s.slots ≡ targets
    pub own : All IsOwn s.slots

  Step-Inv :
      {s t : System} (concurrency : ℕ) (targets : List PingTarget)
      → Step net s t
      → Inv concurrency targets s
      → Inv concurrency targets t
  Step-Inv concurrency targets (acquire e) inv = record {
    bound = omega (arith, Enter-total inside e, inv.bound);
    same = Enter-targets e ∙ inv.same;
    own = Enter-IsOwn e inv.own;
  }
  Step-Inv concurrency targets (release l) inv = record {
    bound = omega (arith, Leave-total inside (λ r. refl) l, inv.bound);
    same = Leave-targets l ∙ inv.same;
    own = Leave-IsOwn l inv.own;
  }

  fresh_slots :
      (targets : List PingTarget)
      → (active (map (λ t. (t, waiting)) targets) ≡ 0)
        × (targets_of (map (λ t. (t, waiting)) targets) ≡ targets)
        × All IsOwn (map (λ t. (t, waiting)) targets)
  unfolding total
  fresh_slots [] = (refl, refl, tt)
  fresh_slots (t ∷ targets) =
      let (none_active, same, own) = fresh_slots targets in
      (omega (arith, none_active), ap (λ (ts : List PingTarget). t ∷ ts) same, (tt, own))

  start-Inv :
      (concurrency : ℕ) (targets : List PingTarget)
      → Inv concurrency targets (start concurrency targets)
  start-Inv concurrency targets =
      let (none_active, same, own) = fresh_slots targets in
      record { bound = omega (arith, none_active); same = same; own = own }

  Steps-Inv :
      {n : ℕ} {s t : System} (concurrency : ℕ) (targets : List PingTarget)
      → Steps net n s t
      → Inv concurrency targets s
      → Inv concurrency targets t
  Steps-Inv concurrency targets stay inv = inv
  Steps-Inv concurrency targets (after steps step) inv =
      Step-Inv concurrency targets step (Steps-Inv concurrency targets steps inv)

  pub reached-Inv :
      {n : ℕ} {s : System} (concurrency : ℕ) (targets : List PingTarget)
      → Steps net n (start concurrency targets) s
      → Inv concurrency targets s
  reached-Inv concurrency targets steps =
      Steps-Inv concurrency targets steps (start-Inv concurrency targets)

  results-own :
      (slots : List Slot) (rs : Result (List PingResult))
      → All IsOwn slots
      → results slots ≡ some rs
      → rs ≡ ping_many net (targets_of slots)
  unfolding results ping_many
  results-own [] rs _ e = ground arith
  results-own ((t, waiting) ∷ slots) rs own e = cc
  results-own ((t, probing) ∷ slots) rs own e = cc
  results-own ((t, finished r) ∷ slots) rs (o, own) e = go (results slots) refl (results-own slots)
    where
      go :
          (found : Option (Result (List PingResult)))
          → results slots ≡ found
          → ((qs : Result (List PingResult))
              → All IsOwn slots
              → results slots ≡ some qs
              → qs ≡ ping_many net (targets_of slots))
          → rs ≡ joined (probe net t) (ping_many net (targets_of slots))
      go none e' ih = absurd (ground arith)
      go (some qs) e' ih =
          let same : joined r qs ≡ rs = some_inj (rw e' at e) in
          sym same ∙ (ap (λ x. joined x qs) o ∙ ap (joined (probe net t)) (ih qs own e'))

  -- Whatever the order in which the probes begin and end, at most as many as the concurrency run at
  -- once, and once every task has ended the outcome is made of the targets' own: the list of their
  -- results, in the order of the targets, or the exception of a target's probe: `ping_many`.
  pub ping_many_order :
      {n : ℕ} {s : System} (concurrency : ℕ) (targets : List PingTarget)
      → Steps net n (start concurrency targets) s
      → (active s.slots ≤ concurrency)
        × ((rs : Result (List PingResult)) → results s.slots ≡ some rs → rs ≡ ping_many net targets)
  ping_many_order concurrency targets steps =
      let inv = reached-Inv concurrency targets steps in
      (
        omega (arith, inv.bound),
        λ rs done. results-own _ rs inv.own done ∙ ap (ping_many net) inv.same,
      )
