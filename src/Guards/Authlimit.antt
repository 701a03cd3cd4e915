-- ===== src/Guards/Authlimit.antt =====
-- internal/authlimit/authlimit.go: the limit on failed logins. A missing entry of `fails` is the empty
-- slice; each call takes the time that `now` returns in it.
pub mod Lockout
use vulos_mail.Common.{
  ℕ, ◌+◌, String, List, [], ◌∷◌, ◌++◌, Bool, true, false, Option, none, some, ltb, leb, eqb, ◌==◌,
  if◌then◌else◌, keep, length,
}
use vulos_mail.Common.Map.{Map, lookup, insert, erase}
use vulos_mail.Guards.Recent.{is_recent}

pub record Config : Type 0 where
  pub max_failures : ℕ
  pub window : ℕ
  pub lockout : ℕ

pub record Limiter : Type 0 where
  pub config : Config
  pub fails : Map (List ℕ)

-- `New`: 0 takes the default
unfoldable pub new_limiter : Config → Limiter
new_limiter cfg = record {
  config = record {
    max_failures = if eqb cfg.max_failures 0 then 5 else cfg.max_failures;
    window = if eqb cfg.window 0 then 900000000000 else cfg.window;
    lockout = if eqb cfg.lockout 0 then 900000000000 else cfg.lockout;
  };
  fails = [];
}

unfoldable pub fails_of : Limiter → String → List ℕ
fails_of l key = elim (lookup key l.fails) [ none ↦ [] | some ts ↦ ts ]

unfoldable pub last : List ℕ → Option ℕ
last [] = none
last (t ∷ ts) = let rest = last ts in elim rest [ none ↦ some t | some u ↦ some u ]

-- `lockedLocked`. `New` makes the limit positive, so a list that is long enough has a last time.
unfoldable pub locked_key : ℕ → String → Limiter → Bool × Limiter
unfolding fails_of last
locked_key now key l =
    let times = fails_of l key in
    if ltb (length times) l.config.max_failures then (false, l) else elim (last times) [
      | none ↦ (false, l)
      | some t ↦
          if leb (t + l.config.lockout) now
          then (false, record l { fails = erase key l.fails })
          else (true, l)
    ]

-- `Locked`
unfoldable pub locked : ℕ → String → Limiter → Bool × Limiter
unfolding locked_key
locked now key l = if key == "" then (false, l) else locked_key now key l

-- `AnyLocked`
unfoldable pub any_locked : ℕ → List String → Limiter → Bool × Limiter
unfolding locked
any_locked now [] l = (false, l)
any_locked now (k ∷ ks) l =
    let (is_locked, l') = locked now k l in
    let rest = any_locked now ks l' in if is_locked then (true, l') else rest

-- a round of the loop of `Fail`
unfoldable pub fail_key : ℕ → String → Limiter → Limiter
unfolding fails_of
fail_key now k l = if k == "" then l else record l {
  fails = insert k (keep (is_recent l.config.window now) (fails_of l k) ++ now ∷ []) l.fails;
}

-- `Fail`
unfoldable pub fail : ℕ → List String → Limiter → Limiter
unfolding fail_key
fail now [] l = l
fail now (k ∷ ks) l = fail now ks (fail_key now k l)

-- `Success`
unfoldable pub success : List String → Limiter → Limiter
success [] l = l
success (k ∷ ks) l = success ks (record l { fails = erase k l.fails })
