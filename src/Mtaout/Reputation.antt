-- ===== src/Mtaout/Reputation.antt =====
-- `Reputation` of services/mtaout/mtaout.go: outcomes for each tenant, and the gate over them. The
-- arithmetic of float64 is a parameter.
use vulos_mail.Common.{
  ℕ, ◌+◌, ◌<◌, ◌≡◌, refl, ◌∙◌, String, [], ◌∷◌, Bool, false, ◌||◌, Option, none, some, ◌==◌, ltb,
  if◌then◌else◌, arith,
}
use vulos_mail.Common.Map.{Map, lookup, insert, lookup-insert}

pub record Floats : Type 1 where
  pub Float : Type 0
  pub of_int : ℕ → Float
  pub div : Float → Float → Float
  pub gt : Float → Float → Bool

pub record RepStat : Type 0 where
  pub delivered : ℕ
  pub bounced : ℕ
  pub complaints : ℕ

pub record Reputation (fl : Floats) : Type 0 where
  pub min_volume : ℕ
  pub max_bounce_rate : fl.Float
  pub max_complaint_rate : fl.Float
  pub stats : Map RepStat

or_zero : Option RepStat → RepStat
or_zero none = record { delivered = 0; bounced = 0; complaints = 0 }
or_zero (some st) = st

none_or : (o : Option RepStat) → (elim o [ none ↦ none | some st ↦ some st ]) ≡ o
none_or none = refl
none_or (some st) = refl

restore_stats : Map RepStat → Map RepStat → Map RepStat
restore_stats [] stats = stats
restore_stats ((t, st) ∷ m) stats = insert t st (restore_stats m stats)

lookup-restore_stats :
    (t : String) (m stats : Map RepStat)
    → lookup t (restore_stats m stats)
      ≡ (elim (lookup t m) [ none ↦ lookup t stats | some st ↦ some st ])
unfolding restore_stats lookup
lookup-restore_stats t [] stats = refl
lookup-restore_stats t ((j, st) ∷ m) stats =
    ground (arith, lookup-insert j t st (restore_stats m stats), lookup-restore_stats t m stats)

module _ {fl : Floats} where
  unfoldable pub get_stat : Reputation fl → String → RepStat
  unfolding or_zero
  get_stat r tenant = or_zero (lookup tenant r.stats)

  unfoldable pub record_delivered : Reputation fl → String → Reputation fl
  unfolding get_stat
  record_delivered r tenant =
      let st = get_stat r tenant in
      record r { stats = insert tenant (record st { delivered = st.delivered + 1 }) r.stats }

  unfoldable pub record_bounced : Reputation fl → String → Reputation fl
  unfolding get_stat
  record_bounced r tenant =
      let st = get_stat r tenant in
      record r { stats = insert tenant (record st { bounced = st.bounced + 1 }) r.stats }

  unfoldable pub record_complaint : Reputation fl → String → Reputation fl
  unfolding get_stat
  record_complaint r tenant =
      let st = get_stat r tenant in
      record r { stats = insert tenant (record st { complaints = st.complaints + 1 }) r.stats }

  -- `Snapshot`: the state has the fields of the counters
  unfoldable pub snapshot : Reputation fl → Map RepStat
  snapshot r = r.stats

  unfoldable pub restore : Reputation fl → Map RepStat → Reputation fl
  unfolding restore_stats
  restore r state = record r { stats = restore_stats state r.stats }

  over_limits : Reputation fl → RepStat → Bool
  over_limits r st =
      let total = st.delivered + st.bounced in
      if ltb total r.min_volume
      then false
      else fl.gt (fl.div (fl.of_int st.bounced) (fl.of_int total)) r.max_bounce_rate
        || fl.gt (fl.div (fl.of_int st.complaints) (fl.of_int total)) r.max_complaint_rate

  unfoldable pub throttled : Reputation fl → String → Bool
  unfolding over_limits
  throttled r tenant = elim (lookup tenant r.stats) [ none ↦ false | some st ↦ over_limits r st ]

  -- What is recorded of a tenant does not gate another.
  pub throttled-record_ne :
      (r : Reputation fl) (tenant other : String)
      → (tenant == other) ≡ false
      → (throttled (record_delivered r tenant) other ≡ throttled r other)
        × (throttled (record_bounced r tenant) other ≡ throttled r other)
        × (throttled (record_complaint r tenant) other ≡ throttled r other)
  unfolding throttled record_delivered record_bounced record_complaint
  throttled-record_ne r tenant other ne = (
    rw (lookup-insert, ne, throttled) refl,
    rw (lookup-insert, ne, throttled) refl,
    rw (lookup-insert, ne, throttled) refl,
  )

  -- A tenant below the volume is never gated.
  pub throttled-small :
      (r : Reputation fl) (tenant : String)
      → (get_stat r tenant).delivered + (get_stat r tenant).bounced < r.min_volume
      → throttled r tenant ≡ false
  unfolding throttled get_stat
  throttled-small r tenant h = ground arith

  -- A snapshot that is restored into a gate with no counters and the same limits gates as before.
  pub throttled-restore :
      (r fresh : Reputation fl) (tenant : String)
      → fresh.min_volume ≡ r.min_volume
      → fresh.max_bounce_rate ≡ r.max_bounce_rate
      → fresh.max_complaint_rate ≡ r.max_complaint_rate
      → fresh.stats ≡ []
      → throttled (restore fresh (snapshot r)) tenant ≡ throttled r tenant
  unfolding throttled restore snapshot lookup
  throttled-restore r fresh tenant v b c e =
      rw (e, v, b, c)
        (let same : lookup tenant (restore_stats r.stats []) ≡ lookup tenant r.stats =
            lookup-restore_stats tenant r.stats [] ∙ none_or (lookup tenant r.stats) in
          rw (same, throttled) refl)
