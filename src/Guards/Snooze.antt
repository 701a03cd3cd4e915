-- ===== src/Guards/Snooze.antt =====
-- internal/snooze/snooze.go: the store of deferred actions in memory and its scheduler, without the
-- ticker of Run. A pass of Run is `drain`.
use vulos_mail.Common.{
  ℕ, ◌≤◌, ◌≡◌, refl, ap, ◌∙◌, keep, map, not, String, List, [], ◌∷◌, Bool, true, false, ltb, leb,
  eqb, if◌then◌else◌, length, All, arith, Bool-cases, inl, inr, leb→le,
}
use vulos_mail.Common.Map.{Map, insert, erase}

-- the kinds of an item
abbrev pub kind_snooze : String
kind_snooze = "snooze"

abbrev pub kind_send : String
kind_send = "send"

pub record Item : Type 0 where
  pub id : String
  pub account : String
  pub kind : String
  pub due_at : ℕ
  pub payload : List ℕ

abbrev pub MemStore : Type 0
MemStore = Map Item

abbrev pub new_store : MemStore
new_store = []

-- `Add`, and `Schedule`: an item with the same id is replaced
unfoldable pub add : Item → MemStore → MemStore
add item s = insert item.id item s

-- `Due`: the items that are due, and the store without them
unfoldable pub take_due : ℕ → MemStore → List Item × MemStore
take_due now [] = ([], [])
take_due now ((id, it) ∷ s) =
    let (due, rest) = take_due now s in
    if leb it.due_at now then (it ∷ due, rest) else (due, (id, it) ∷ rest)

-- `Cancel`
unfoldable pub cancel : String → MemStore → MemStore
cancel id s = erase id s

unfoldable pub pending : MemStore → ℕ
pending s = length s

module _ (before_id : String → String → Bool) where
  -- the order of `sort.Slice`, on the due time and then the id; `before_id` is `<` on strings
  unfoldable pub earlier : Item → Item → Bool
  earlier a b = if eqb a.due_at b.due_at then before_id a.id b.id else ltb a.due_at b.due_at

  unfoldable pub place : Item → List Item → List Item
  place x [] = x ∷ []
  place x (y ∷ ys) = let rest = place x ys in if earlier y x then y ∷ rest else x ∷ y ∷ ys

  unfoldable pub sort : List Item → List Item
  unfolding place
  sort [] = []
  sort (x ∷ xs) = place x (sort xs)

  -- `Scheduler.Due`
  unfoldable pub drain : ℕ → MemStore → List Item × MemStore
  unfolding sort
  drain now s = let (due, rest) = take_due now s in (sort due, rest)

  -- a sort keeps how many items pass a test
  keep-place :
      (p : Item → Bool) (x : Item) (ys : List Item)
      → length (keep p (place x ys)) ≡ length (keep p (x ∷ ys))
  unfolding place keep
  keep-place p x [] = refl
  keep-place p x (y ∷ ys) = ground (arith, keep-place p x ys)

  keep-sort : (p : Item → Bool) (xs : List Item) → length (keep p (sort xs)) ≡ length (keep p xs)
  unfolding sort keep
  keep-sort p [] = refl
  keep-sort p (x ∷ xs) = ground (arith, keep-place p x (sort xs), keep-sort p xs)

  -- all due by `now`, in the order of their times
  abbrev pub Ordered : ℕ → List Item → Type 0
  Ordered now [] = Unit
  Ordered now (x ∷ xs) = (x.due_at ≤ now) × All (λ y. x.due_at ≤ y.due_at) xs × Ordered now xs

  All-place :
      (n : ℕ) (x : Item) (ys : List Item)
      → n ≤ x.due_at
      → All (λ y. n ≤ y.due_at) ys
      → All (λ y. n ≤ y.due_at) (place x ys)
  unfolding place
  All-place n x [] h a = (h, tt)
  All-place n x (y ∷ ys) h a = elim (Bool-cases (earlier y x)) [
    | inl e ↦ rw e (a.0, All-place n x ys h a.1)
    | inr e ↦ rw e (h, a)
  ]

  weaken :
      (n k : ℕ) (ys : List Item) → k ≤ n → All (λ y. n ≤ y.due_at) ys → All (λ y. k ≤ y.due_at) ys
  weaken n k [] h a = tt
  weaken n k (y ∷ ys) h a = (omega (arith, a.0), weaken n k ys h a.1)

  earlier_le : (x y : Item) → earlier y x ≡ true → y.due_at ≤ x.due_at
  unfolding earlier
  earlier_le x y h = ground (arith, h)

  not_earlier_le : (x y : Item) → earlier y x ≡ false → x.due_at ≤ y.due_at
  unfolding earlier
  not_earlier_le x y h = ground (arith, h)

  Ordered-place :
      (now : ℕ) (x : Item) (ys : List Item)
      → x.due_at ≤ now
      → Ordered now ys
      → Ordered now (place x ys)
  unfolding place
  Ordered-place now x [] h o = (h, tt, tt)
  Ordered-place now x (y ∷ ys) h o = elim (Bool-cases (earlier y x)) [
    | inl e ↦
        rw e (o.0, All-place y.due_at x ys (earlier_le x y e) o.1, Ordered-place now x ys h o.2)
    | inr e ↦
        rw e (h, (not_earlier_le x y e, weaken y.due_at x.due_at ys (not_earlier_le x y e) o.1), o)
  ]

  Ordered-sort : (now : ℕ) (xs : List Item) → All (λ x. x.due_at ≤ now) xs → Ordered now (sort xs)
  unfolding sort
  Ordered-sort now [] a = tt
  Ordered-sort now (x ∷ xs) a = Ordered-place now x (sort xs) a.0 (Ordered-sort now xs a.1)

  taken_due : (now : ℕ) (s : MemStore) → All (λ x. x.due_at ≤ now) (take_due now s).0
  unfolding take_due
  taken_due now [] = tt
  taken_due now ((id, it) ∷ s) = elim (Bool-cases (leb it.due_at now)) [
    | inl due ↦ rw due (leb→le it.due_at now due, taken_due now s)
    | inr later ↦ rw later (taken_due now s)
  ]

  -- the entries of a store that are due, and the others
  abbrev pub is_due : ℕ → String × Item → Bool
  is_due now x = leb x.1.due_at now

  taken :
      (now : ℕ) (s : MemStore)
      → ((take_due now s).0 ≡ map (λ (x : String × Item). x.1) (keep (is_due now) s))
        × ((take_due now s).1 ≡ keep (λ x. not (is_due now x)) s)
  unfolding take_due keep
  taken now [] = (refl, refl)
  taken now ((id, it) ∷ s) =
      let ih = taken now s in
      elim (Bool-cases (leb it.due_at now)) [
        | inl due ↦ rw due (ap (λ xs. it ∷ xs) ih.0, ih.1)
        | inr later ↦ rw later (ih.0, ap (λ xs. (id, it) ∷ xs) ih.1)
      ]

  -- A drain returns exactly the items that are due, each as often as the store has it, in the order of their
  -- times, and what stays is exactly the entries that are not due, as they were.
  pub Ordered-drain :
      (now : ℕ) (s : MemStore) (p : Item → Bool)
      → Ordered now (drain now s).0
        × (length (keep p (drain now s).0)
            ≡ length (keep p (map (λ (x : String × Item). x.1) (keep (is_due now) s))))
        × ((drain now s).1 ≡ keep (λ x. not (is_due now x)) s)
  unfolding drain
  Ordered-drain now s p =
      let t = taken now s in
      (
        Ordered-sort now (take_due now s).0 (taken_due now s),
        keep-sort p (take_due now s).0 ∙ ap (λ xs. length (keep p xs)) t.0,
        t.1,
      )
