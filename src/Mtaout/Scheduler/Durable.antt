-- ===== src/Mtaout/Scheduler/Durable.antt =====
-- The contract of a queue store (services/mtaout/mtaout.go), and what its calls do to the messages it
-- holds.
use vulos_mail.Common.{
  ◌≡◌, ◌⊎◌, ◌∙◌, String, List, [], ◌∷◌, ◌++◌, true, false, Option, none, some, arith, ◌==◌, eq_iff,
  All,
}
use vulos_mail.Mtaout.Scheduler.{QueuedItem, QueueStore, remove_durable, update_durable}

unfoldable pub mem : QueuedItem → List QueuedItem → Type 0
mem q [] = ⊥
mem q (x ∷ xs) = (x ≡ q) ⊎ mem q xs

-- What a store promises. It keeps an item under a key that the id of its message has, and in the form in which it
-- will be read; `load` returns all that is found. An addition or update that succeeds is found, and is of a message
-- with an id; an update of another key, a removal of another key and an addition under another key touch nothing.
pub record IsDurable (qs : QueueStore) : Type 0 where
  pub key : String → String
  pub image : QueuedItem → QueuedItem
  pub find : qs.State → String → Option QueuedItem
  pub add_done :
      (st : qs.State) (it : QueuedItem)
      → (qs.add st it).0 ≡ true
      → ((it.msg.id == "") ≡ false) × (find (qs.add st it).1 (key it.msg.id) ≡ some (image it))
  pub add_other :
      (st : qs.State) (it : QueuedItem) (k : String)
      → (key it.msg.id == k) ≡ false
      → find (qs.add st it).1 k ≡ find st k
  pub update_done :
      (st : qs.State) (it : QueuedItem)
      → (qs.update st it).0 ≡ true
      → find (qs.update st it).1 (key it.msg.id) ≡ some (image it)
  pub update_other :
      (st : qs.State) (it : QueuedItem) (k : String)
      → (key it.msg.id == k) ≡ false
      → find (qs.update st it).1 k ≡ find st k
  pub remove_other :
      (st : qs.State) (id k : String)
      → (key id == k) ≡ false
      → find (qs.remove st id).1 k ≡ find st k
  pub load_all :
      (st : qs.State) (items : List QueuedItem) (k : String) (it : QueuedItem)
      → qs.load st ≡ some items
      → find st k ≡ some it
      → mem it items

-- every update of a message with an id succeeds
abbrev pub Steady : QueueStore → Type 0
Steady qs =
    (st : qs.State) (it : QueuedItem) → (it.msg.id == "") ≡ false → (qs.update st it).0 ≡ true

-- `x` has another key than each item
abbrev pub Apart : (String → String) → QueuedItem → List QueuedItem → Type 0
Apart key x = All (λ q. (key x.msg.id == key q.msg.id) ≡ false)

abbrev pub Distinct : (String → String) → List QueuedItem → Type 0
Distinct key [] = Unit
Distinct key (x ∷ xs) = Apart key x xs × Distinct key xs

module _ {ℓ κ} {A : Type ℓ} (P : A → Type κ) where
  pub All-snoc : (xs : List A) (x : A) → All P xs → P x → All P (xs ++ x ∷ [])
  All-snoc [] x h p = (p, tt)
  All-snoc (y ∷ xs) x h p = (h.0, All-snoc xs x h.1 p)

pub all_trivial : (xs : List QueuedItem) → All (λ x. Unit {0}) xs
all_trivial [] = tt
all_trivial (x ∷ xs) = (tt, all_trivial xs)

pub apart_sym : (a b : String) → (a == b) ≡ false → (b == a) ≡ false
apart_sym a b h = ground (arith, eq_iff a b, eq_iff b a)

module _ {ℓ κ} {A : Type ℓ} (P Q R : A → Type κ) (both : (x : A) → P x → Q x → R x) where
  pub All-both : (xs : List A) → All P xs → All Q xs → All R xs
  All-both [] h k = tt
  All-both (x ∷ xs) h k = (both x h.0 k.0, All-both xs h.1 k.1)

pub Distinct-snoc :
    (key : String → String) (q : QueuedItem) (xs : List QueuedItem)
    → Apart key q xs
    → Distinct key xs
    → Distinct key (xs ++ q ∷ [])
Distinct-snoc key q [] h d = (tt, tt)
Distinct-snoc key q (x ∷ xs) h d = (
  All-snoc _ xs q d.0 (apart_sym (key q.msg.id) (key x.msg.id) h.0),
  Distinct-snoc key q xs h.1 d.1,
)

module _ (qs : QueueStore) (law : IsDurable qs) where
  -- the store, if there is one, holds the item, its attempts and its next attempt included
  abbrev pub Kept : Option qs.State → QueuedItem → Type 0
  Kept none q = Unit
  Kept (some st) q =
      ((q.msg.id == "") ≡ false) × (law.find st (law.key q.msg.id) ≡ some (law.image q))

  pub Kept-remove :
      (id : String) (o : Option qs.State) (x : QueuedItem)
      → Kept o x
      → (law.key id == law.key x.msg.id) ≡ false
      → Kept (remove_durable qs id o) x
  unfolding remove_durable
  Kept-remove id none x k a = tt
  Kept-remove id (some st) x k a = (k.0, law.remove_other st id (law.key x.msg.id) a ∙ k.1)

  pub Kept-update :
      (it : QueuedItem) (o : Option qs.State) (x : QueuedItem)
      → Kept o x
      → (law.key it.msg.id == law.key x.msg.id) ≡ false
      → Kept (update_durable qs it o) x
  unfolding update_durable
  Kept-update it none x k a = tt
  Kept-update it (some st) x k a = (k.0, law.update_other st it (law.key x.msg.id) a ∙ k.1)

  pub Kept-update_self :
      (it q : QueuedItem) (o : Option qs.State)
      → Steady qs
      → it.msg ≡ q.msg
      → Kept o q
      → Kept (update_durable qs it o) it
  unfolding update_durable
  Kept-update_self it q none steady same k = tt
  Kept-update_self it q (some st) steady same k =
      let named : (it.msg.id == "") ≡ false = rw same k.0 in
      (named, law.update_done st it (steady st it named))

  pub Kept-add :
      (it : QueuedItem) (st : qs.State) (x : QueuedItem)
      → Kept (some st) x
      → (law.key it.msg.id == law.key x.msg.id) ≡ false
      → Kept (some (qs.add st it).1) x
  Kept-add it st x k a = (k.0, law.add_other st it (law.key x.msg.id) a ∙ k.1)

  pub Kept-add_self :
      (it : QueuedItem) (st : qs.State) → (qs.add st it).0 ≡ true → Kept (some (qs.add st it).1) it
  Kept-add_self it st done = law.add_done st it done
