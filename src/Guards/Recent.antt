-- ===== src/Guards/Recent.antt =====
-- The loop of internal/abuse/abuse.go and internal/authlimit/authlimit.go that keeps the times of a
-- sliding window. Times and durations are numbers of nanoseconds; no sum of them overflows.
use vulos_mail.Common.{ℕ, ◌+◌, ◌≤◌, ◌<◌, ◌≡◌, refl, List, [], ◌∷◌, Bool, ltb, keep, arith, All}

-- `t.After(now.Add(-window))`
unfoldable pub is_recent : ℕ → ℕ → ℕ → Bool
is_recent window now t = ltb now (t + window)

pub keep-recent_twice :
    (window before now : ℕ) (ts : List ℕ)
    → before ≤ now
    → keep (is_recent window now) (keep (is_recent window before) ts)
      ≡ keep (is_recent window now) ts
unfolding keep is_recent
keep-recent_twice window before now [] h = refl
keep-recent_twice window before now (t ∷ ts) h =
    ground (arith, keep-recent_twice window before now ts h)

pub keep-recent_all :
    (window now : ℕ) (ts : List ℕ)
    → All (λ t. now < t + window) ts
    → keep (is_recent window now) ts ≡ ts
unfolding keep is_recent
keep-recent_all window now [] h = refl
keep-recent_all window now (t ∷ ts) (h, hs) = ground (arith, h, keep-recent_all window now ts hs)
