-- ===== src/Imap/Session/Expunged.antt =====
-- What a client makes of the numbers that EXPUNGE answers, in adapters/imap/server.go.
use vulos_mail.Common.{
  ℕ, zero, suc, ◌+◌, ◌%◌, ◌^◌, ◌≡◌, ◌<◌, refl, sym, ap, ◌∙◌, List, [], ◌∷◌, ◌++◌, Bool, true, not,
  Option, keep, length, length-append, arith, Bool-cases, inl, inr,
}
use mathlib.Core.List.{append_assoc}
use vulos_mail.Model.{LabelId}
use vulos_mail.EventLog.{Log}
use vulos_mail.Account.{Services, Runtime, unlabel, step}
use vulos_mail.Imap.Session.{SelMsg, Range, Session}
use vulos_mail.Imap.Session.Commands.{is_doomed, expunge_from, expunge}

-- a client's list without the message of a number, counted from 1
abbrev pub remove_number {ℓ} : {A : Type ℓ} → ℕ → List A → List A
remove_number n [] = []
remove_number zero (x ∷ xs) = x ∷ xs
remove_number (suc zero) (x ∷ xs) = xs
remove_number (suc (suc n)) (x ∷ xs) = x ∷ remove_number (suc n) xs

abbrev pub remove_numbers {ℓ} : {A : Type ℓ} → List ℕ → List A → List A
remove_numbers [] xs = xs
remove_numbers (n ∷ ns) xs = remove_numbers ns (remove_number n xs)

module _ {A : Type 0} where
  remove_numbers-append :
      (ns ks : List ℕ) (xs : List A)
      → remove_numbers (ns ++ ks) xs ≡ remove_numbers ks (remove_numbers ns xs)
  remove_numbers-append [] ks xs = refl
  remove_numbers-append (n ∷ ns) ks xs = remove_numbers-append ns ks (remove_number n xs)

  remove_number-middle :
      (front : List A) (x : A) (back : List A)
      → remove_number (suc (length front)) (front ++ x ∷ back) ≡ front ++ back
  remove_number-middle [] x back = refl
  remove_number-middle (y ∷ front) x back = ap (λ t. y ∷ t) (remove_number-middle front x back)

module _ {l : Log} {s : Services} (now : ℕ) (doomed : SelMsg → Bool) (mailbox : LabelId) where
  -- the calls of the runtime, from the last message down
  unfoldable pub unlabel_all : List SelMsg → Runtime l s → Runtime l s
  unlabel_all [] rt = rt
  unlabel_all (m ∷ ms) rt = step l s now (unlabel m.id mailbox) (unlabel_all ms rt)

  runtime-expunge_from :
      (writes : ℕ → Bool) (encode : ℕ → ℕ) (n : ℕ) (ms : List SelMsg) (rt : Runtime l s)
      → ((k : ℕ) → writes k ≡ true)
      → ((expunge_from now writes encode doomed mailbox n ms rt).0 ≡ true)
        × ((expunge_from now writes encode doomed mailbox n ms rt).2
            ≡ unlabel_all (keep doomed ms) rt)
  unfolding expunge_from keep unlabel_all
  runtime-expunge_from writes encode n [] rt w = (refl, refl)
  runtime-expunge_from writes encode n (m ∷ ms) rt w =
      let ih = runtime-expunge_from writes encode (n + 1) ms rt w in
      elim (Bool-cases (doomed m)) [
        | inl goes ↦ rw (ih.0, goes, w n) (refl, ap (step l s now (unlabel m.id mailbox)) ih.1)
        | inr stays ↦ rw (stays, ih.0) (refl, ih.1)
      ]

  -- a client that holds the messages before and these
  numbers-expunge_from :
      (writes : ℕ → Bool) (encode : ℕ → ℕ) (n : ℕ) (front ms : List SelMsg) (rt : Runtime l s)
      → ((k : ℕ) → writes k ≡ true)
      → ((k : ℕ) → encode k ≡ k)
      → n ≡ length front
      → n + length ms < 2 ^ 32
      → remove_numbers (expunge_from now writes encode doomed mailbox n ms rt).1 (front ++ ms)
        ≡ front ++ keep (λ m. not (doomed m)) ms
  unfolding expunge_from keep
  numbers-expunge_from writes encode n front [] rt w plain at fits = refl
  numbers-expunge_from writes encode n front (m ∷ ms) rt w plain at fits =
      let nums = (expunge_from now writes encode doomed mailbox (n + 1) ms rt).1 in
      let others : List SelMsg = keep (λ m. not (doomed m)) ms in
      let rest : remove_numbers nums (front ++ m ∷ ms) ≡ front ++ m ∷ others =
        ap (remove_numbers nums) (sym (append_assoc front (m ∷ []) ms))
        ∙ (numbers-expunge_from writes encode (n + 1) (front ++ m ∷ []) ms rt w plain
              (omega (arith, at, length-append {0} front (m ∷ []))) (omega (arith, fits))
            ∙ append_assoc front (m ∷ []) others) in
      let done = (runtime-expunge_from writes encode (n + 1) ms rt w).0 in
      let number : encode ((n + 1) % 2 ^ 32) ≡ suc (length front) =
        plain ((n + 1) % 2 ^ 32) ∙ omega (arith, at, fits) in
      elim (Bool-cases (doomed m)) [
        | inl goes ↦
            rw (done, goes, w n)
              (remove_numbers-append nums (encode ((n + 1) % 2 ^ 32) ∷ []) (front ++ m ∷ ms)
                ∙ (ap (remove_number (encode ((n + 1) % 2 ^ 32))) rest
                    ∙ (ap (λ k. remove_number k (front ++ m ∷ others)) number
                        ∙ remove_number-middle front m others)))
        | inr stays ↦ rw (stays, done) rest
      ]

module _ {l : Log} {s : Services} where
  -- Where the answer can be written, the numbering of the tracker is plain and fewer than 2 ^ 32 messages are selected,
  -- EXPUNGE succeeds, and a client that removes from its list of the selected messages the numbers of the answer,
  -- one after the other, has the list of the session after it, which is what was selected without the messages that
  -- carry the mark, and with UID EXPUNGE only those of them whose UID is in the set. The runtime is the one after
  -- calls of Unlabel for the selected label on exactly these, whose failures are ignored.
  pub expunge_in_step :
      (now : ℕ) (contains : List Range → ℕ → Bool) (writes : ℕ → Bool) (encode : ℕ → ℕ)
      (only : Option (List Range)) (ss : Session l s)
      → ((k : ℕ) → writes k ≡ true)
      → ((k : ℕ) → encode k ≡ k)
      → length ss.msgs < 2 ^ 32
      → let doomed = is_doomed contains only ss.deleted in
        let (ok, numbers, after) = expunge now contains writes encode only ss in
        (ok ≡ true)
        × ((remove_numbers numbers ss.msgs ≡ after.msgs)
            × ((after.msgs ≡ keep (λ m. not (doomed m)) ss.msgs)
                × (after.rt ≡ unlabel_all now doomed ss.sel_label (keep doomed ss.msgs) ss.rt)))
  unfolding expunge
  expunge_in_step now contains writes encode only ss w plain fits =
      let doomed = is_doomed contains only ss.deleted in
      let ran = runtime-expunge_from now doomed ss.sel_label writes encode 0 ss.msgs ss.rt w in
      rw (expunge, ran.0)
        (
          refl,
          (
            numbers-expunge_from now doomed ss.sel_label writes encode 0 [] ss.msgs ss.rt w plain
                refl (omega (arith, fits)),
            (refl, ran.1),
          ),
        )
