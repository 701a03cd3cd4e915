-- ===== src/Mtaout/Warmup/Ramp.antt =====
-- The daily caps of the ramp, `Allow` and `Record` of services/mtaout/mtaout.go.
use vulos_mail.Common.{
  ℕ, ◌+◌, ◌≤◌, ◌≡◌, refl, ap, String, [], ◌∷◌, true, false, ◌&&◌, ◌↔◌, ◌==◌, eq_iff, if◌then◌else◌,
  arith, Bool-cases, inl, inr, str_eq_refl,
}
use vulos_mail.Common.Map.{lookup, insert, lookup-insert, is_some}
use vulos_mail.Mtaout.Warmup.{
  Day, day, back, same_day, Used, used_at, bump, Warmup, days_between, day_index, cap_for, allow,
  seen, record_send, snapshot, restore,
}

same_day_iff : (a b : Day) → (same_day a b ≡ true) ↔ (a ≡ b)
same_day_iff (day m) (day n) = ground arith
same_day_iff (day m) (back n) = ground arith
same_day_iff (back m) (day n) = ground arith
same_day_iff (back m) (back n) = ground arith

pub used_at-bump :
    (k domain : String) (e d : Day) (u : Used)
    → used_at k e (bump domain d u)
      ≡ (if domain == k && same_day d e then used_at k e u + 1 else used_at k e u)
unfolding used_at bump
used_at-bump k domain e d [] = ground arith
used_at-bump k domain e d (((j, c), n) ∷ u) = ground (
  arith,
  used_at-bump k domain e d u,
  eq_iff j domain,
  eq_iff j k,
  eq_iff domain k,
  same_day_iff c d,
  same_day_iff c e,
  same_day_iff d e,
)

-- No counter is over the cap of its day, and a domain that has not sent has none.
pub record IsCapped (w : Warmup) : Type 0 where
  pub capped : (domain : String) (d : Day) → used_at domain d w.used ≤ cap_for w.schedule d
  pub unseen :
      (domain : String) (d : Day)
      → is_some (lookup domain w.first_seen) ≡ false
      → used_at domain d w.used ≡ 0

days_between_self : (now : ℕ) → days_between now now ≡ day 0
unfolding days_between
days_between_self now = ground arith

record_known :
    (w : Warmup) (domain : String) (now : ℕ)
    → is_some (lookup domain w.first_seen) ≡ true
    → record_send w domain now ≡ (record w { used = bump domain (day_index w domain now) w.used })
unfolding record_send seen
record_known w domain now old = rw old refl

day_index-first :
    (w : Warmup) (domain : String) (now : ℕ)
    → day_index (record w { first_seen = insert domain now w.first_seen }) domain now ≡ day 0
unfolding day_index
day_index-first w domain now =
    rw (lookup-insert, day_index) (rw (str_eq_refl domain) (days_between_self now))

-- the first send of a domain is on its day 0
record_new :
    (w : Warmup) (domain : String) (now : ℕ)
    → is_some (lookup domain w.first_seen) ≡ false
    → record_send w domain now ≡ (record w {
      first_seen = insert domain now w.first_seen;
      used = bump domain (day 0) w.used;
    })
unfolding record_send seen
record_new w domain now new = rw new (
    ap
      (λ (d : Day).
        let w' : Warmup = record w {
          first_seen = insert domain now w.first_seen;
          used = bump domain d w.used;
        } in
        w')
      (day_index-first w domain now))

-- A send that the ramp allows, once it is counted, keeps the daily count of every domain within the
-- cap of the day.
pub record_send-IsCapped :
    (w : Warmup) (domain : String) (now : ℕ)
    → allow w domain now ≡ true
    → IsCapped w
    → IsCapped (record_send w domain now)
unfolding allow
record_send-IsCapped w domain now ok c = elim (Bool-cases (is_some (lookup domain w.first_seen))) [
  | inl old ↦ rw (record_known w domain now old) (record {
    capped = λ k d. ground (
      arith,
      old,
      ok,
      c.capped k d,
      used_at-bump k domain d (day_index w domain now) w.used,
      eq_iff domain k,
      same_day_iff (day_index w domain now) d,
    );
    unseen = λ k d new. ground (
      arith,
      old,
      new,
      c.unseen k d new,
      used_at-bump k domain d (day_index w domain now) w.used,
      eq_iff domain k,
    );
  })
  | inr new ↦ rw (record_new w domain now new) (record {
    capped = λ k d. ground (
      arith,
      new,
      ok,
      c.capped k d,
      c.unseen domain (day 0) new,
      used_at-bump k domain d (day 0) w.used,
      eq_iff domain k,
      same_day_iff (day 0) d,
    );
    unseen = λ k d late. ground (
      arith,
      late,
      c.unseen k d,
      used_at-bump k domain d (day 0) w.used,
      lookup-insert domain k now w.first_seen,
      eq_iff domain k,
    );
  })
]

-- A restart keeps the ramp: a snapshot of a ramp within its caps, restored into one of the same
-- schedule, is within the caps, and allows each domain at each time what was allowed.
pub restore-IsCapped :
    (w fresh : Warmup)
    → fresh.schedule ≡ w.schedule
    → IsCapped w
    → IsCapped (restore fresh (snapshot w))
      × ((domain : String) (now : ℕ)
          → allow (restore fresh (snapshot w)) domain now ≡ allow w domain now)
unfolding restore snapshot allow day_index
restore-IsCapped w fresh same c = (
  record { capped = λ k d. rw same (c.capped k d); unseen = c.unseen },
  λ domain now. rw same refl,
)
