-- ===== src/Guards/Authlimit/Lockout.antt =====
-- Failures and the lock of a key, internal/authlimit/authlimit.go.
use mathlib.Core.List.{append-nil, append_assoc}
use vulos_mail.Common.{
  ℕ, ◌+◌, ◌≤◌, ◌<◌, ◌≡◌, refl, ap, sym, ◌∙◌, String, List, [], ◌∷◌, ◌++◌, false, some, ltb, leb,
  ◌==◌, arith, All, length, length-append, ◌&&◌, subst, str_eq_refl,
}
use vulos_mail.Common.Map.{lookup, insert, lookup-insert}
use vulos_mail.Guards.Recent.{keep-recent_all}
use vulos_mail.Guards.Authlimit.{
  Config, Limiter, new_limiter, fails_of, last, locked_key, locked, fail_key,
}

-- failures of one key, in order
unfoldable pub fail_times : String → List ℕ → Limiter → Limiter
fail_times key [] l = l
fail_times key (t ∷ ts) l = fail_times key ts (fail_key t key l)

last-snoc : (ts : List ℕ) (t : ℕ) → last (ts ++ t ∷ []) ≡ some t
unfolding last
last-snoc [] t = refl
last-snoc (u ∷ ts) t = rw (last-snoc ts t) refl

fails_of-insert :
    (key : String) (ts : List ℕ) (l : Limiter)
    → fails_of (record l { fails = insert key ts l.fails }) key ≡ ts
unfolding fails_of
fails_of-insert key ts l = ground (arith, lookup-insert key key ts l.fails, str_eq_refl key)

fails_of-fail_key :
    (key : String) (now : ℕ) (l : Limiter)
    → (key == "") ≡ false
    → All (λ t. now < t + l.config.window) (fails_of l key)
    → (fails_of (fail_key now key l) key ≡ fails_of l key ++ now ∷ [])
      × ((fail_key now key l).config ≡ l.config)
unfolding fail_key
fails_of-fail_key key now l ne h =
    rw (ne, keep-recent_all l.config.window now (fails_of l key) h)
      (fails_of-insert key (fails_of l key ++ now ∷ []) l, refl)

snoc_recent :
    (w t u : ℕ) (ts : List ℕ)
    → t < u + w
    → All (λ x. t < x + w) ts
    → All (λ x. t < x + w) (ts ++ u ∷ [])
snoc_recent w t u [] h a = (h, tt)
snoc_recent w t u (x ∷ ts) h a = (a.0, snoc_recent w t u ts h a.1)

before : (w t u : ℕ) (ts : List ℕ) → u ≤ t → All (λ x. t < x + w) ts → All (λ x. u < x + w) ts
before w t u [] le h = tt
before w t u (x ∷ ts) le h = (omega (arith, h.0), before w t u ts le h.1)

-- all times are in the window that ends at `t`
unfoldable pub Within : ℕ → ℕ → List ℕ → Type 0
Within w t = All (λ x. (x ≤ t) × (t < x + w))

fails_of-fail_times :
    (key : String) (t : ℕ) (ts : List ℕ) (l : Limiter)
    → (key == "") ≡ false
    → Within l.config.window t ts
    → All (λ x. t < x + l.config.window) (fails_of l key)
    → (fails_of (fail_times key ts l) key ≡ fails_of l key ++ ts)
      × ((fail_times key ts l).config ≡ l.config)
unfolding fail_times Within
fails_of-fail_times key t [] l ne w h = (sym (append-nil (fails_of l key)), refl)
fails_of-fail_times key t (u ∷ ts) l ne ((le, lt), w) h =
    let one = fails_of-fail_key key u l ne (before l.config.window t u (fails_of l key) le h) in
    let l' = fail_key u key l in
    let rest =
      fails_of-fail_times key t ts l' ne (subst (λ c. Within c.window t ts) (sym one.1) w) (
        subst (λ c. All (λ x. t < x + c.window) (fails_of l' key)) (sym one.1)
          (rw one.0 (snoc_recent l.config.window t u (fails_of l key) lt h))) in
    (rest.0 ∙ ap (λ x. x ++ ts) one.0 ∙ append_assoc (fails_of l key) (u ∷ []) ts, rest.1 ∙ one.1)

-- the test on a key that is not empty, by its times
locked_times :
    (now : ℕ) (key : String) (l : Limiter) (ts : List ℕ) (t : ℕ)
    → (key == "") ≡ false
    → fails_of l key ≡ ts ++ t ∷ []
    → (locked now key l).0
      ≡ (leb l.config.max_failures (length ts + 1) && ltb now (t + l.config.lockout))
unfolding locked locked_key
locked_times now key l ts t ne e =
    rw (ne, e, last-snoc ts t, length-append ts (t ∷ [])) (ground arith)

-- the state of a new limiter has no failures
fails_of-new : (cfg : Config) (key : String) → fails_of (new_limiter cfg) key ≡ []
unfolding fails_of new_limiter lookup
fails_of-new cfg key = refl

-- When all failures of a key fall in the window that ends at the last of them, at `t`, the key is locked exactly if
-- they are at least as many as the limit and the lockout since `t` has not passed.
pub locked-fail_times :
    (cfg : Config) (key : String) (ts : List ℕ) (t now : ℕ)
    → (key == "") ≡ false
    → Within (new_limiter cfg).config.window t (ts ++ t ∷ [])
    → (locked now key (fail_times key (ts ++ t ∷ []) (new_limiter cfg))).0 ≡ (
        leb (new_limiter cfg).config.max_failures (length ts + 1)
        && ltb now (t + (new_limiter cfg).config.lockout))
locked-fail_times cfg key ts t now ne w =
    let l = new_limiter cfg in
    let l' = fail_times key (ts ++ t ∷ []) l in
    let all = fails_of-fail_times key t (ts ++ t ∷ []) l ne w (rw (fails_of-new cfg key) tt) in
    locked_times now key l' ts t ne (all.0 ∙ ap (λ x. x ++ (ts ++ t ∷ [])) (fails_of-new cfg key))
    ∙ ap (λ c. leb c.max_failures (length ts + 1) && ltb now (t + c.lockout)) all.1
