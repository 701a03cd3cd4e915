-- ===== src/Server/Limits/Capped.antt =====
-- The quota of internal/tenant/tenant.go over a day.
use vulos_mail.Common.{
  ℕ, ◌+◌, ◌^◌, ◌≤◌, ◌<◌, ◌≡◌, refl, sym, subst, ◌∙◌, All, String-cases, str_eq_refl, String, List,
  [], ◌∷◌, false, Option, none, some, ◌==◌, if◌then◌else◌, arith, Bool-cases, inl, inr,
}
use vulos_mail.Common.Map.{lookup, insert, lookup-insert}
use vulos_mail.Server.Limits.{DayUsage, Quota, usage_on, is_over, refusal_of, counted, allow}

-- messages, as their tenants and sizes
abbrev pub Requests : Type 0
Requests = List (String × ℕ)

-- one more message where the answer is no refusal
unfoldable pub tally : Option String → ℕ → ℕ × ℕ → ℕ × ℕ
tally none bytes (n, sum) = (n + 1, sum + bytes)
tally (some reason) bytes (n, sum) = (n, sum)

-- what was allowed to a tenant: the number and the bytes
unfoldable pub allowed : ℕ → String → Requests → Quota → ℕ × ℕ
unfolding tally
allowed day t [] q = (0, 0)
allowed day t ((tenant, bytes) ∷ rs) q =
    let (refusal, q') = allow day tenant bytes q in
    let rest = allowed day t rs q' in if tenant == t then tally refusal bytes rest else rest

abbrev pub used : ℕ → String → Quota → DayUsage
used day t q = usage_on day (lookup t q.usage)

day-usage_on : (day : ℕ) (o : Option DayUsage) → (usage_on day o).day ≡ day
unfolding usage_on
day-usage_on day none = refl
day-usage_on day (some u) = ground arith

usage_on_again : (day : ℕ) (u : DayUsage) → u.day ≡ day → usage_on day (some u) ≡ u
unfolding usage_on
usage_on_again day u e = ground (arith, e)

used-insert :
    (day : ℕ) (tenant t : String) (u : DayUsage) (q : Quota)
    → u.day ≡ day
    → used day t (record q { usage = insert tenant u q.usage })
      ≡ (if tenant == t then u else used day t q)
used-insert day tenant t u q e = rw lookup-insert (elim (Bool-cases (tenant == t)) [
  | inl own ↦ rw own (usage_on_again day u e)
  | inr other ↦ rw other refl
])

day-counted :
    (day : ℕ) (r : Option String) (u : DayUsage) (bytes : ℕ)
    → u.day ≡ day
    → (counted r u bytes).day ≡ day
unfolding counted
day-counted day none u bytes e = e
day-counted day (some reason) u bytes e = e

-- what a tenant has used after a call
used-allow :
    (day : ℕ) (t tenant : String) (bytes : ℕ) (q : Quota)
    → let u = used day tenant q in
      used day t (allow day tenant bytes q).1
      ≡ (if tenant == t then counted (refusal_of u bytes q) u bytes else used day t q)
unfolding allow
used-allow day t tenant bytes q =
    let u = used day tenant q in
    used-insert day tenant t (counted (refusal_of u bytes q) u bytes) q
      (day-counted day (refusal_of u bytes q) u bytes (day-usage_on day (lookup tenant q.usage)))

-- what is not refused fits
msgs-refusal_of :
    (u : DayUsage) (bytes : ℕ) (q : Quota)
    → refusal_of u bytes q ≡ none
    → 0 < q.max_msgs
    → u.msgs < q.max_msgs
unfolding refusal_of
msgs-refusal_of u bytes q e positive = ground (arith, e, positive)

bytes-refusal_of :
    (u : DayUsage) (bytes : ℕ) (q : Quota)
    → refusal_of u bytes q ≡ none
    → 0 < q.max_bytes
    → u.bytes + bytes < 2 ^ 63
    → u.bytes + bytes ≤ q.max_bytes
unfolding refusal_of is_over
bytes-refusal_of u bytes q e positive small = ground (arith, e, positive, small)

caps-allow :
    (day : ℕ) (tenant : String) (bytes : ℕ) (q : Quota)
    → ((allow day tenant bytes q).1.max_msgs ≡ q.max_msgs)
      × ((allow day tenant bytes q).1.max_bytes ≡ q.max_bytes)
unfolding allow
caps-allow day tenant bytes q = (refl, refl)

allowed-own :
    (day : ℕ) (t : String) (bytes : ℕ) (rs : Requests) (q : Quota)
    → allowed day t ((t, bytes) ∷ rs) q
      ≡ tally (refusal_of (used day t q) bytes q) bytes (allowed day t rs (allow day t bytes q).1)
unfolding allowed allow
allowed-own day t bytes rs q = rw (str_eq_refl t) refl

allowed-other :
    (day : ℕ) (t tenant : String) (bytes : ℕ) (rs : Requests) (q : Quota)
    → (tenant == t) ≡ false
    → allowed day t ((tenant, bytes) ∷ rs) q ≡ allowed day t rs (allow day tenant bytes q).1
unfolding allowed
allowed-other day t tenant bytes rs q other = rw other refl

-- the totals of a tenant, with what it had used before, are within the caps
abbrev pub Within : ℕ → String → Requests → Quota → Type 0
Within day t rs q =
    ((used day t q).msgs + (allowed day t rs q).0 ≤ q.max_msgs)
    × ((used day t q).bytes + (allowed day t rs q).1 ≤ q.max_bytes)

-- one answer, and the totals of what comes after it
tally-Within :
    (u : DayUsage) (bytes : ℕ) (q : Quota) (r : Option String) (rest : ℕ × ℕ)
    → refusal_of u bytes q ≡ r
    → 0 < q.max_msgs
    → 0 < q.max_bytes
    → q.max_bytes < 2 ^ 62
    → bytes < 2 ^ 62
    → u.msgs ≤ q.max_msgs
    → u.bytes ≤ q.max_bytes
    → ((counted r u bytes).msgs ≤ q.max_msgs
        → (counted r u bytes).bytes ≤ q.max_bytes
        → ((counted r u bytes).msgs + rest.0 ≤ q.max_msgs)
          × ((counted r u bytes).bytes + rest.1 ≤ q.max_bytes))
    → (u.msgs + (tally r bytes rest).0 ≤ q.max_msgs)
      × (u.bytes + (tally r bytes rest).1 ≤ q.max_bytes)
unfolding counted tally
tally-Within u bytes q (some reason) (n, sum) e sm sb bounded small m b later = later m b
tally-Within u bytes q none (n, sum) e sm sb bounded small m b later =
    let fits_m = msgs-refusal_of u bytes q e sm in
    let fits_b = bytes-refusal_of u bytes q e sb (omega (arith, b, bounded, small)) in
    let both = later (omega (arith, fits_m)) (omega (arith, fits_b, bounded)) in
    (omega (arith, both.0), omega (arith, both.1, fits_b, bounded))

-- On one day, whatever messages of whatever tenants are asked for in whatever order, what is allowed to a
-- tenant, counted with what it had used of the day before, stays within the caps of the quota, in messages and
-- in bytes, where both are set, if it did before; sizes and the cap in bytes are below 2 ^ 62.
pub allowed-capped :
    (day : ℕ) (t : String) (rs : Requests) (q : Quota)
    → 0 < q.max_msgs
    → 0 < q.max_bytes
    → q.max_bytes < 2 ^ 62
    → All (λ r. r.1 < 2 ^ 62) rs
    → (used day t q).msgs ≤ q.max_msgs
    → (used day t q).bytes ≤ q.max_bytes
    → Within day t rs q
allowed-capped day t [] q sm sb bounded small m b =
    unfold allowed in (omega (arith, m), omega (arith, b))
allowed-capped day t ((tenant, bytes) ∷ rs) q sm sb bounded small m b =
    let q' = (allow day tenant bytes q).1 in
    let (same_m, same_b) = caps-allow day tenant bytes q in
    let later : (used day t q').msgs ≤ q.max_msgs
        → (used day t q').bytes ≤ q.max_bytes
        → ((used day t q').msgs + (allowed day t rs q').0 ≤ q.max_msgs)
          × ((used day t q').bytes + (allowed day t rs q').1 ≤ q.max_bytes) =
      λ m' b'.
        let both =
          allowed-capped day t rs q' (omega (arith, sm, same_m)) (omega (arith, sb, same_b))
            (omega (arith, bounded, same_b)) small.1 (omega (arith, m', same_m))
            (omega (arith, b', same_b)) in
        (omega (arith, both.0, same_m), omega (arith, both.1, same_b)) in
    elim (String-cases tenant t) [
      | inl own ↦
          let u = used day t q in
          let r = refusal_of u bytes q in
          let split =
            subst
              (λ s.
                allowed day t ((s, bytes) ∷ rs) q
                ≡ tally r bytes (allowed day t rs (allow day s bytes q).1))
              (sym own) (allowed-own day t bytes rs q) in
          let kept =
            subst (λ s. used day t (allow day s bytes q).1 ≡ counted r u bytes) (sym own)
              (used-allow day t t bytes q ∙ rw (str_eq_refl t) refl) in
          rw split (
            tally-Within u bytes q r (allowed day t rs q') refl sm sb bounded small.0 m b (λ m' b'.
              subst
                (λ v.
                  (v.msgs + (allowed day t rs q').0 ≤ q.max_msgs)
                  × (v.bytes + (allowed day t rs q').1 ≤ q.max_bytes))
                kept (later (rw kept m') (rw kept b'))))
      | inr other ↦
          let kept : used day t q' ≡ used day t q =
            used-allow day t tenant bytes q ∙ rw other refl in
          rw (allowed-other day t tenant bytes rs q other) (
            subst
              (λ u.
                (u.msgs + (allowed day t rs q').0 ≤ q.max_msgs)
                × (u.bytes + (allowed day t rs q').1 ≤ q.max_bytes))
              kept (later (rw kept m) (rw kept b)))
    ]
