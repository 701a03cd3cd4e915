-- ===== src/Mtaout/FileQueue.antt =====
-- services/mtaout/filequeue.go: the queue store of one JSON file for each message. The directory is a map from the
-- names of its files to what reading them gives; how the n-th write ends is an argument. A file that is cut short
-- never gets its final name, so that every file can be read.
use vulos_mail.Common.{
  ℕ, zero, suc, ◌+◌, ◌-◌, ◌≡◌, inl, inr, refl, subst, String, List, [], ◌∷◌, Bool, true, false,
  ◌&&◌, ◌||◌, Option, some, ◌==◌, eqb, leb, if◌then◌else◌, map, Bool-cases, arith, str_eq_refl,
}
use vulos_mail.Common.Map.{Map, lookup, insert, erase, lookup-insert, lookup-erase}
use vulos_mail.Common.Text.{cat}
use vulos_mail.Event.Utf8.{width, to_valid}
use vulos_mail.Mtaout.Scheduler.{QueuedItem, QueueStore}
use vulos_mail.Mtaout.Scheduler.Durable.{mem, IsDurable}
use Prim.Native.Char.{code}

is_plain : ℕ → Bool
is_plain n =
    (leb 97 n && leb n 122)
    || ((leb 65 n && leb n 90) || ((leb 48 n && leb n 57) || (eqb n 45 || eqb n 95)))

-- The loop of `safeQueueName`, at most as long as the first argument; the second counts the bytes that are left of
-- the character begun.
unfoldable name_from : ℕ → ℕ → String → String
unfolding is_plain width cat
name_from k n String.[] = String.[]
name_from k (suc n) (String.◌∷◌ c s) = name_from k n s
name_from zero zero (String.◌∷◌ c s) = String.[]
name_from (suc k) zero (String.◌∷◌ c s) =
    let rest = name_from k (width (String.◌∷◌ c s) - 1) s in
    if is_plain (code c) then String.◌∷◌ c rest else cat "_" rest

-- `safeQueueName`
unfoldable pub safe_queue_name : String → String
unfolding name_from
safe_queue_name id = if id == "" then "q" else name_from 200 0 id

-- what reading an item gives of it: the texts in UTF-8
unfoldable pub valid_item : QueuedItem → QueuedItem
unfolding to_valid
valid_item it = record it {
  msg = record (it.msg) {
    id = to_valid it.msg.id;
    tenant = to_valid it.msg.tenant;
    from_domain = to_valid it.msg.from_domain;
    rcpt_domain = to_valid it.msg.rcpt_domain;
    from_addr = to_valid it.msg.from_addr;
    rcpts = map to_valid it.msg.rcpts;
  };
}

-- how the write of an item ends: done, with an error before the file has its name, or with one after it
pub data Write : Type 0 where
  done before_rename after_rename : Write

-- the directory, and the number of the next write
pub record Dir : Type 0 where
  pub files : Map QueuedItem
  pub next : ℕ

unfoldable pub items_of : Map QueuedItem → List QueuedItem
items_of [] = []
items_of ((k, it) ∷ m) = it ∷ items_of m

found_again :
    (k : String) (it : QueuedItem) (m : Map QueuedItem) → lookup k (insert k it m) ≡ some it
found_again k it m = rw (lookup-insert, str_eq_refl k) refl

module _ (writes : ℕ → Write) where
  unfoldable pub write_item : Dir → QueuedItem → Bool × Dir
  write_item d it =
      let kept : Dir = record d { next = d.next + 1 } in
      let written : Dir = record kept {
        files = insert (safe_queue_name it.msg.id) (valid_item it) d.files;
      } in
      if it.msg.id == "" then (false, d) else elim (writes d.next) [
        | done ↦ (true, written)
        | before_rename ↦ (false, kept)
        | after_rename ↦ (false, written)
      ]

  -- `Remove`; one that fails leaves the file
  unfoldable pub remove_item : Dir → String → Bool × Dir
  remove_item d id = elim (writes d.next) [
    | before_rename ↦ (false, record d { next = d.next + 1 })
    | _ ↦ (true, record d { files = erase (safe_queue_name id) d.files; next = d.next + 1 })
  ]

  -- `FileQueue`
  abbrev pub file_queue : QueueStore
  file_queue = record {
    State = Dir;
    add = write_item;
    update = write_item;
    remove = remove_item;
    load = λ d. some (items_of d.files);
  }

  pub write_done :
      (d : Dir) (it : QueuedItem)
      → (write_item d it).0 ≡ true
      → ((it.msg.id == "") ≡ false)
        × (lookup (safe_queue_name it.msg.id) (write_item d it).1.files ≡ some (valid_item it))
  unfolding write_item
  write_done d it h = elim (Bool-cases (it.msg.id == "")) [
    | inl bad ↦ absurd (ground (arith, h, bad))
    | inr named ↦ go named (writes d.next) refl
  ]
    where
      go :
          (it.msg.id == "") ≡ false
          → (o : Write) → writes d.next ≡ o
          → ((it.msg.id == "") ≡ false)
            × (lookup (safe_queue_name it.msg.id) (write_item d it).1.files ≡ some (valid_item it))
      go named done e = (
        named,
        rw (write_item, named, e) (found_again (safe_queue_name it.msg.id) (valid_item it) d.files),
      )
      go named before_rename e = absurd (ground (arith, h, named, e))
      go named after_rename e = absurd (ground (arith, h, named, e))

  pub write_other :
      (d : Dir) (it : QueuedItem) (k : String)
      → (safe_queue_name it.msg.id == k) ≡ false
      → lookup k (write_item d it).1.files ≡ lookup k d.files
  unfolding write_item
  write_other d it k ne = elim (Bool-cases (it.msg.id == "")) [
    | inl bad ↦ rw (write_item, bad) refl
    | inr named ↦ go named (writes d.next) refl
  ]
    where
      go :
          (it.msg.id == "") ≡ false
          → (o : Write) → writes d.next ≡ o
          → lookup k (write_item d it).1.files ≡ lookup k d.files
      go named done e = rw (write_item, named, e) (rw (lookup-insert, ne) refl)
      go named before_rename e = rw (write_item, named, e) refl
      go named after_rename e = rw (write_item, named, e) (rw (lookup-insert, ne) refl)

  pub remove_other :
      (d : Dir) (id k : String)
      → (safe_queue_name id == k) ≡ false
      → lookup k (remove_item d id).1.files ≡ lookup k d.files
  unfolding remove_item
  remove_other d id k ne = go (writes d.next) refl
    where
      go : (o : Write) → writes d.next ≡ o → lookup k (remove_item d id).1.files ≡ lookup k d.files
      go done e = rw (remove_item, e) (rw (lookup-erase, ne) refl)
      go before_rename e = rw (remove_item, e) refl
      go after_rename e = rw (remove_item, e) (rw (lookup-erase, ne) refl)

  items_of-lookup :
      (m : Map QueuedItem) (k : String) (it : QueuedItem)
      → lookup k m ≡ some it
      → mem it (items_of m)
  unfolding lookup items_of mem
  items_of-lookup [] k it e = absurd (cc e)
  items_of-lookup ((j, x) ∷ m) k it e = elim (Bool-cases (j == k)) [
    | inl here ↦ inl (ground (arith, e, here))
    | inr there ↦ inr (items_of-lookup m k it (ground (arith, e, there)))
  ]

  pub load_items :
      (m : Map QueuedItem) (items : List QueuedItem) (k : String) (it : QueuedItem)
      → ◌≡◌ {A = Option (List QueuedItem)} (some (items_of m)) (some items)
      → lookup k m ≡ some it
      → mem it items
  load_items m items k it l e =
      let same : items_of m ≡ items = cc l in subst (mem it) same (items_of-lookup m k it e)

  -- the file queue keeps what a queue store promises, under the names of its files
  abbrev pub file_queue-IsDurable : IsDurable file_queue
  file_queue-IsDurable = record {
    key = safe_queue_name;
    image = valid_item;
    find = λ d k. lookup k d.files;
    add_done = write_done;
    add_other = write_other;
    update_done = λ d it h. (write_done d it h).1;
    update_other = write_other;
    remove_other = remove_other;
    load_all = λ d items k it l e. load_items d.files items k it l e;
  }
