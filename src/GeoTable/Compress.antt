-- ===== src/GeoTable/Compress.antt =====
-- Dropping the repeats of a rising table changes no answer, and leaves no repeat.
use weronity_vpn.Prelude.{
  ℕ, ◌+◌, ◌≤◌, ◌≡◌, refl, Bool, true, false, List, [], ◌∷◌, ◌++◌, leb, eqb, arith, if◌then◌else◌,
  Bool-cases, inl, inr, ◌∙◌,
}
use weronity_vpn.GeoTable.{Record, compress, ends_with_index}
use weronity_vpn.GeoTable.Reader.{read_from, read, read_from-append}

-- The first addresses rise from `lo` on and stay below `hi`.
abbrev pub Rises : ℕ → List Record → ℕ → Type 0
Rises lo [] hi = lo ≤ hi
Rises lo ((s, i) ∷ recs) hi = (lo ≤ s) × Rises (s + 1) recs hi

pub Rises-weaken :
    (lo hi hi' : ℕ) (recs : List Record) → Rises lo recs hi → hi ≤ hi' → Rises lo recs hi'
Rises-weaken lo hi hi' [] h le = omega arith
Rises-weaken lo hi hi' ((s, i) ∷ recs) (a, h) le = (a, Rises-weaken (s + 1) hi hi' recs h le)

pub Rises-append :
    (lo hi s i : ℕ) (recs : List Record)
    → Rises lo recs hi
    → hi ≤ s
    → Rises lo (recs ++ (s, i) ∷ []) (s + 1)
Rises-append lo hi s i [] h le = (omega arith, omega arith)
Rises-append lo hi s i ((t, j) ∷ recs) (a, h) le = (a, Rises-append (t + 1) hi s i recs h le)

-- The last record answers for every address from its own on.
read_from_last :
    (j lo hi i ip : ℕ) (out : List Record)
    → Rises lo out hi
    → ends_with_index out i ≡ true
    → hi ≤ ip + 1
    → read_from j out ip ≡ i
unfolding read_from ends_with_index
read_from_last j lo hi i ip [] h e le = cc
read_from_last j lo hi i ip ((s, k) ∷ []) h e le = ground arith
read_from_last j lo hi i ip ((s, k) ∷ r ∷ rs) (a, h) e le =
    read_from_last (if leb s ip then k else j) (s + 1) hi i ip (r ∷ rs) h e le

pub read-compress :
    (out recs : List Record) (lo hi end ip : ℕ)
    → Rises lo out hi
    → Rises hi recs end
    → read (compress out recs) ip ≡ read_from (read out ip) recs ip
unfolding compress read_from
read-compress out [] lo hi end ip ho hr = refl
read-compress out ((s, i) ∷ recs) lo hi end ip ho (le, hr) =
    elim (Bool-cases (ends_with_index out i)) [
      | inl same ↦ rw same (
          read-compress out recs lo (s + 1) end ip (Rises-weaken lo hi (s + 1) out ho (omega arith))
            hr
          ∙ ground (arith, read_from_last 0 lo hi i ip out ho same))
      | inr new ↦ rw new (
          read-compress (out ++ (s, i) ∷ []) recs lo (s + 1) end ip
            (Rises-append lo hi s i out ho le) hr
          ∙ rw read_from-append)
    ]

pub compress-Rises :
    (out recs : List Record) (lo hi end : ℕ)
    → Rises lo out hi
    → Rises hi recs end
    → Rises lo (compress out recs) end
unfolding compress
compress-Rises out [] lo hi end ho hr = Rises-weaken lo hi end out ho hr
compress-Rises out ((s, i) ∷ recs) lo hi end ho (le, hr) =
    elim (Bool-cases (ends_with_index out i)) [
      | inl same ↦ rw same (
          compress-Rises out recs lo (s + 1) end (Rises-weaken lo hi (s + 1) out ho (omega arith))
            hr)
      | inr new ↦ rw new (
          compress-Rises (out ++ (s, i) ∷ []) recs lo (s + 1) end (Rises-append lo hi s i out ho le)
            hr)
    ]

-- No record has the country of the one before it.
unfoldable pub repeats : List Record → Bool
repeats [] = false
repeats (_ ∷ []) = false
repeats ((s, i) ∷ (t, j) ∷ recs) =
    let rest = repeats ((t, j) ∷ recs) in if eqb i j then true else rest

repeats-append :
    (out : List Record) (s i : ℕ)
    → repeats out ≡ false
    → ends_with_index out i ≡ false
    → repeats (out ++ (s, i) ∷ []) ≡ false
unfolding repeats ends_with_index
repeats-append [] s i h e = refl
repeats-append ((t, j) ∷ []) s i h e = ground arith
repeats-append ((t, j) ∷ (u, k) ∷ out) s i h e = ground (arith, repeats-append ((u, k) ∷ out) s i)

pub repeats-compress :
    (out recs : List Record) → repeats out ≡ false → repeats (compress out recs) ≡ false
unfolding compress
repeats-compress out [] h = h
repeats-compress out ((s, i) ∷ recs) h = elim (Bool-cases (ends_with_index out i)) [
  | inl same ↦ rw same (repeats-compress out recs h)
  | inr new ↦ rw new (repeats-compress (out ++ (s, i) ∷ []) recs (repeats-append out s i h new))
]

-- The table begins at the first address.
unfoldable pub begins_at_zero : List Record → Bool
begins_at_zero [] = false
begins_at_zero ((s, i) ∷ _) = eqb s 0

compress_keeps_head :
    (s i : ℕ) (out recs : List Record)
    → begins_at_zero ((s, i) ∷ out) ≡ true
    → begins_at_zero (compress ((s, i) ∷ out) recs) ≡ true
unfolding compress
compress_keeps_head s i out [] h = h
compress_keeps_head s i out ((t, j) ∷ recs) h =
    elim (Bool-cases (ends_with_index ((s, i) ∷ out) j)) [
      | inl same ↦ rw same (compress_keeps_head s i out recs h)
      | inr new ↦
          rw new (compress_keeps_head s i (out ++ (t, j) ∷ []) recs (unfold begins_at_zero in h))
    ]

pub begins_at_zero-compress :
    (recs : List Record) → begins_at_zero recs ≡ true → begins_at_zero (compress [] recs) ≡ true
unfolding compress begins_at_zero ends_with_index
begins_at_zero-compress [] h = h
begins_at_zero-compress ((s, i) ∷ recs) h = compress_keeps_head s i [] recs h
