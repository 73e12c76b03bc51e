-- ===== src/Lifetime/Good.antt =====
-- The entries that `observe` writes, and what a touch makes of one.
use weronity_vpn.Prelude.{ℕ, ◌+◌, ◌≤◌, ◌≡◌, refl, String, some, arith}
use weronity_vpn.Prelude.Int.{pos, ◌+ℤ◌}
use weronity_vpn.Prelude.Dict.{lookup, insert, lookup-insert}
use weronity_vpn.Prelude.Value.{int, str, Runtime, to_str, to_int, get_or}
use weronity_vpn.Prelude.Result.{ok}
use weronity_vpn.Lifetime.{Calendar, Entry, stamp, whole_second, first_entry, touch, instant}

-- `isoformat` and `fromisoformat` are inverse on instants of a whole second.
pub record IsLawful (cal : Calendar) : Type 0 where
  pub parse-format : (t : ℕ) → cal.parse (stamp cal t) ≡ some (whole_second t)

-- An entry as the collector writes it after `total` runs: its two stamps can be read, it was first
-- seen in one of the runs, and it was seen in at most the runs since then.
pub record Good (cal : Calendar) (total : ℕ) (e : Entry) : Type 0 where
  pub first_text : String
  pub first : ℕ
  pub last_text : String
  pub last : ℕ
  pub seen : ℕ
  pub first_run : ℕ
  pub has_first : lookup "first_seen" e ≡ some (str first_text)
  pub first_parses : cal.parse first_text ≡ some first
  pub has_last : lookup "last_seen" e ≡ some (str last_text)
  pub last_parses : cal.parse last_text ≡ some last
  pub has_seen : lookup "seen_runs" e ≡ some (int (pos seen))
  pub has_run : lookup "first_run" e ≡ some (int (pos first_run))
  pub run_pos : 1 ≤ first_run
  pub seen_pos : 1 ≤ seen
  pub seen_bound : seen + first_run ≤ total + 1

module _ (cal : Calendar) where
  pub Good-suc : (total : ℕ) (e : Entry) → Good cal total e → Good cal (total + 1) e
  Good-suc total e g = record {
    first_text = g.first_text;
    first = g.first;
    last_text = g.last_text;
    last = g.last;
    seen = g.seen;
    first_run = g.first_run;
    has_first = g.has_first;
    first_parses = g.first_parses;
    has_last = g.has_last;
    last_parses = g.last_parses;
    has_seen = g.has_seen;
    has_run = g.has_run;
    run_pos = g.run_pos;
    seen_pos = g.seen_pos;
    seen_bound = omega (arith, g.seen_bound);
  }

module _ (cal : Calendar) (now : ℕ) where
  -- The entry after a touch, for an entry that was seen `seen` times.
  abbrev pub touched : ℕ → Entry → Entry
  touched seen e =
      insert "seen_runs" (int (pos (seen + 1))) (insert "last_seen" (str (stamp cal now)) e)

module _ ⦃py : Runtime⦄ (cal : Calendar) (lawful : IsLawful cal) (now : ℕ) where
  pub first_entry-Good : (total : ℕ) → Good cal (total + 1) (first_entry cal now (total + 1))
  unfolding lookup
  first_entry-Good total = record {
    first_text = stamp cal now;
    first = whole_second now;
    last_text = stamp cal now;
    last = whole_second now;
    seen = 1;
    first_run = total + 1;
    has_first = refl;
    first_parses = lawful.parse-format now;
    has_last = refl;
    last_parses = lawful.parse-format now;
    has_seen = refl;
    has_run = refl;
    run_pos = omega arith;
    seen_pos = omega arith;
    seen_bound = omega arith;
  }

  pub touch-eq :
      (total : ℕ) (e : Entry) (g : Good cal total e)
      → touch cal now e ≡ ok (touched cal now g.seen e)
  unfolding touch get_or to_int ◌+ℤ◌
  touch-eq total e g = ground (arith, g.has_seen)

  pub touched-Good :
      (total : ℕ) (e : Entry) (g : Good cal total e)
      → Good cal (total + 1) (touched cal now g.seen e)
  touched-Good total e g = record {
    first_text = g.first_text;
    first = g.first;
    last_text = stamp cal now;
    last = whole_second now;
    seen = g.seen + 1;
    first_run = g.first_run;
    has_first = simp lookup-insert g.has_first;
    first_parses = g.first_parses;
    has_last = simp lookup-insert;
    last_parses = lawful.parse-format now;
    has_seen = simp lookup-insert;
    has_run = simp lookup-insert g.has_run;
    run_pos = g.run_pos;
    seen_pos = omega arith;
    seen_bound = omega (arith, g.seen_bound);
  }

  pub instant_last :
      (total : ℕ) (e : Entry) (g : Good cal total e) → instant cal "last_seen" e ≡ ok g.last
  unfolding instant to_str
  instant_last total e g = rw (g.has_last, g.last_parses)

  pub instant_first :
      (total : ℕ) (e : Entry) (g : Good cal total e) → instant cal "first_seen" e ≡ ok g.first
  unfolding instant to_str
  instant_first total e g = rw (g.has_first, g.first_parses)
