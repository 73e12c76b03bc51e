-- ===== src/Lifetime/Derive.antt =====
-- `lifetime_for` on the entries that the collector writes.
use weronity_vpn.Prelude.{ℕ, ◌+◌, ◌-◌, ◌*◌, ◌/◌, ◌≤◌, ◌≡◌, ap, String, some, arith}
use weronity_vpn.Prelude.Int.{pos}
use weronity_vpn.Prelude.Dict.{lookup}
use weronity_vpn.Prelude.Value.{Runtime, to_int, get_or}
use weronity_vpn.Prelude.Result.{ok}
use weronity_vpn.Models.{Lifetime}
use weronity_vpn.Lifetime.{
  Calendar, Entry, SeenState, hour, stamp, classify_age, lifetime_for, runs_since, capped,
}
use weronity_vpn.Lifetime.Good.{IsLawful, Good}

-- `round(a / b, 3)` is a nearest thousandth of the quotient, and no more is known of it.
pub record IsRounding (cal : Calendar) : Type 0 where
  pub thousandths : ℕ → ℕ → ℕ
  pub ratio-eq : (a b : ℕ) → cal.ratio (pos a) b ≡ pos (thousandths a b)
  pub not_above : (a b : ℕ) → 1 ≤ b → 2 * (thousandths a b * b) ≤ 2000 * a + b
  pub not_below : (a b : ℕ) → 1 ≤ b → 2000 * a ≤ 2 * (thousandths a b * b) + b

module _ (cal : Calendar) (rounding : IsRounding cal) where
  pub thousandths-le : (a b : ℕ) → 1 ≤ b → a ≤ b → rounding.thousandths a b ≤ 1000
  thousandths-le a b p h = grind (arith, rounding.not_above a b p)

module _ ⦃py : Runtime⦄ (cal : Calendar) (lawful : IsLawful cal) (rounding : IsRounding cal)
    (now : ℕ) where
  -- The lifetime of an entry that the collector wrote.
  abbrev pub lifetime_of : (total : ℕ) (e : Entry) → Good cal total e → Lifetime
  lifetime_of total e g = record {
    first_seen = stamp cal g.first;
    last_seen = stamp cal g.last;
    age_hours = (now - g.first) / hour;
    class = classify_age ((now - g.first) / hour);
    seen_runs = pos g.seen;
    stability = pos (rounding.thousandths g.seen (total + 1 - g.first_run));
  }

  pub lifetime_for-Good :
      (sid : String) (s : SeenState) (e : Entry) (g : Good cal s.runs_total e)
      → lookup sid s.nodes ≡ some e
      → lifetime_for cal sid now s ≡ ok (lifetime_of s.runs_total e g)
  unfolding lifetime_for get_or to_int
  lifetime_for-Good sid s e g at =
      let n = s.runs_total + 1 - g.first_run in
      let runs : runs_since s.runs_total (pos g.first_run) ≡ n = omega arith in
      let small : rounding.thousandths g.seen n ≤ 1000 =
        thousandths-le cal rounding g.seen n (omega arith) (omega arith) in
      let top : capped (pos (rounding.thousandths g.seen n)) ≡ pos (rounding.thousandths g.seen n) =
        ground arith in
      rw (at, g.has_first, g.first_parses, g.has_last, g.last_parses)
        (ground (
          arith,
          g.has_seen,
          g.has_run,
          ap (cal.ratio (pos g.seen)) runs,
          rounding.ratio-eq g.seen n,
          top,
        ))
