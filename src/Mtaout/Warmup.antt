-- ===== src/Mtaout/Warmup.antt =====
-- `Warmup` of services/mtaout/mtaout.go: a daily volume ramp for each sending domain. Times are
-- nanoseconds; a day index is an integer, since the clock may go back. The key "domain|day" of a
-- counter is the pair of both, which it determines: the day is the text after the last bar.
pub mod Ramp
use vulos_mail.Common.{
  ℕ, zero, suc, ◌+◌, ◌-◌, ◌*◌, ◌/◌, ◌≤◌, ◌<◌, ◌≡◌, refl, String, List, [], ◌∷◌, Bool, true, false,
  not, ◌&&◌, ◌||◌, Option, none, some, ◌==◌, eq_iff, ◌^◌, ltb, leb, eqb, if◌then◌else◌, length,
  arith, Option-cases, inl, inr, str_eq_refl,
}
use vulos_mail.Common.Map.{Map, lookup, insert, lookup-insert, is_some}

-- `back n` is -(n + 1)
pub data Day : Type 0 where
  day : ℕ → Day
  back : ℕ → Day

abbrev pub same_day : Day → Day → Bool
same_day (day m) (day n) = eqb m n
same_day (back m) (back n) = eqb m n
same_day _ _ = false

-- the counters
abbrev pub Used : Type 0
Used = List ((String × Day) × ℕ)

unfoldable pub used_at : String → Day → Used → ℕ
used_at domain d [] = 0
used_at domain d (((k, e), n) ∷ u) = if k == domain && same_day e d then n else used_at domain d u

-- `used[wkey]++`
unfoldable pub bump : String → Day → Used → Used
bump domain d [] = ((domain, d), 1) ∷ []
bump domain d (((k, e), n) ∷ u) =
    if k == domain && same_day e d then ((k, e), n + 1) ∷ u else ((k, e), n) ∷ bump domain d u

pub record Warmup : Type 0 where
  pub schedule : List ℕ
  pub first_seen : Map ℕ
  pub used : Used

abbrev pub nanos_per_day : ℕ
nanos_per_day = 24 * 3600 * 1000000000

-- the quotient is truncated towards zero
unfoldable pub days_between : ℕ → ℕ → Day
days_between now fs =
    if leb fs now
    then day ((now - fs) / nanos_per_day)
    else if eqb ((fs - now) / nanos_per_day) 0
    then day 0
    else back ((fs - now) / nanos_per_day - 1)

unfoldable pub day_index : Warmup → String → ℕ → Day
unfolding days_between
day_index w domain now = elim (lookup domain w.first_seen) [
  | none ↦ day 0
  | some fs ↦ days_between now fs
]

-- `schedule[d]`, the last entry past the end
at_day : List ℕ → ℕ → ℕ
at_day [] d = 2 ^ 30
at_day (c ∷ []) d = c
at_day (c ∷ cs) zero = c
at_day (c ∷ cs) (suc d) = at_day cs d

-- `capFor`
unfoldable pub cap_for : List ℕ → Day → ℕ
unfolding at_day
cap_for schedule (day d) = at_day schedule d
cap_for schedule (back n) = at_day schedule 0

unfoldable pub allow : Warmup → String → ℕ → Bool
allow w domain now =
    if is_some (lookup domain w.first_seen)
    then ltb (used_at domain (day_index w domain now) w.used)
        (cap_for w.schedule (day_index w domain now))
    else ltb 0 (cap_for w.schedule (day 0))

unfoldable pub seen : Warmup → String → ℕ → Warmup
seen w domain now =
    if is_some (lookup domain w.first_seen)
    then w
    else record w { first_seen = insert domain now w.first_seen }

unfoldable pub record_send : Warmup → String → ℕ → Warmup
unfolding seen
record_send w domain now =
    let w' = seen w domain now in record w' { used = bump domain (day_index w' domain now) w'.used }

-- `WarmupState`; a nil map is `none`
pub record WarmupState : Type 0 where
  pub first_seen : Option (Map ℕ)
  pub used : Option Used

unfoldable pub snapshot : Warmup → WarmupState
snapshot w = record { first_seen = some w.first_seen; used = some w.used }

unfoldable pub restore : Warmup → WarmupState → Warmup
restore w st = record w {
  first_seen = elim (st.first_seen) [ none ↦ w.first_seen | some m ↦ m ];
  used = elim (st.used) [ none ↦ w.used | some u ↦ u ];
}
