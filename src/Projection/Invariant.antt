-- ===== src/Projection/Invariant.antt =====
-- The invariant of an account of internal/projection/projection.go, on its order, threads and index.
use mathlib.Core.Option
use vulos_mail.Common.{
  ◌≡◌, ◌∙◌, ap, refl, String, List, [], ◌∷◌, Bool, true, false, not, ◌&&◌, ◌||◌, Option, none, some,
  arith, ◌==◌, eq_iff, sym, if◌then◌else◌, elem, distinct, Option-cases, Bool-cases, inl, inr, ◌⊎◌,
}
use vulos_mail.Common.Map.{Map, is_some, lookup, lookup-map_values, map_values}
use vulos_mail.Model.{MessageId, Message, Thread}
use vulos_mail.Projection.{
  Account, new, on_message, move_to_thread, move_all, join_threads, merge_threads,
}
use vulos_mail.Projection.Threads.{
  members, has_thread, lookup-on_message, has_thread-move_all, elem-join,
}

-- the header of a message, if there is one
abbrev pub has_header : String → Option Message → Bool
has_header h none = false
has_header h (some m) = m.envelope.message_id_header == h

abbrev pub has_id : MessageId → Option Message → Bool
has_id id none = true
has_id id (some m) = m.id == id

-- the message that an index entry names carries the entry's header
abbrev pub entry_fits : Map Message → String → Option MessageId → Bool
entry_fits ms h none = true
entry_fits ms h (some id) = has_header h (lookup id ms)

pub record IsValid (a : Account) : Type 0 where
  -- the order lists the stored messages, each once
  pub listed : (id : MessageId) → elem id a.order ≡ is_some (lookup id a.messages)
  pub once : distinct a.order ≡ true
  pub keyed : (id : MessageId) → has_id id (lookup id a.messages) ≡ true
  -- a thread's members are the messages with its id
  pub grouped :
      (tid id : MessageId)
      → elem id (members tid a.threads) ≡ (not (tid == "") && has_thread tid (lookup id a.messages))
  pub indexed : (h : String) → entry_fits a.messages h (lookup h a.by_message_id) ≡ true
  pub unnamed : lookup "" a.by_message_id ≡ none

pub IsValid-new : IsValid new
unfolding new elem distinct lookup
IsValid-new = record {
  listed = λ id. refl;
  once = refl;
  keyed = λ id. refl;
  grouped = λ tid id. ground arith;
  indexed = λ h. refl;
  unnamed = refl;
}

-- Two states of a message that agree on its id and its header.
abbrev pub SameShape : Option Message → Option Message → Type 0
SameShape none none = Unit
SameShape none (some n) = ⊥
SameShape (some m) none = ⊥
SameShape (some m) (some n) =
    (m.id ≡ n.id) × (m.envelope.message_id_header ≡ n.envelope.message_id_header)

pub SameShape-refl : (o : Option Message) → SameShape o o
SameShape-refl none = tt
SameShape-refl (some m) = (refl, refl)

pub SameShape-trans : (o p q : Option Message) → SameShape o p → SameShape p q → SameShape o q
SameShape-trans none none none s t = tt
SameShape-trans none none (some q) s t = absurd t
SameShape-trans none (some p) q s t = absurd s
SameShape-trans (some o) none q s t = absurd s
SameShape-trans (some o) (some p) none s t = absurd t
SameShape-trans (some o) (some p) (some q) s t = (s.0 ∙ t.0, s.1 ∙ t.1)

abbrev pub KeepsShape : (Message → Message) → Type 0
KeepsShape f = (m : Message) → SameShape (some m) (some (f m))

pub SameShape-map :
    (f : Message → Message) → KeepsShape f → (o : Option Message) → SameShape o (Option.map f o)
SameShape-map f keeps none = tt
SameShape-map f keeps (some m) = keeps m

pub SameShape-on_message :
    (msg id : MessageId) (f : Message → Message) (ms : Map Message)
    → KeepsShape f
    → SameShape (lookup id ms) (lookup id (on_message msg f ms))
SameShape-on_message msg id f ms keeps = rw lookup-on_message (go (msg == id))
  where
    go :
        (b : Bool)
        → SameShape (lookup id ms) (if b then Option.map f (lookup id ms) else lookup id ms)
    go true = SameShape-map f keeps (lookup id ms)
    go false = SameShape-refl (lookup id ms)

SameShape-moved : (into : MessageId) → KeepsShape (move_to_thread into)
unfolding move_to_thread
SameShape-moved into m = (refl, refl)

pub SameShape-move_all :
    (into id : MessageId) (ids : List MessageId) (ms : Map Message)
    → SameShape (lookup id ms) (lookup id (move_all into ids ms))
unfolding move_all
SameShape-move_all into id [] ms = SameShape-refl (lookup id ms)
SameShape-move_all into id (x ∷ xs) ms =
    let ms' = on_message x (move_to_thread into) ms in
    SameShape-trans (lookup id ms) (lookup id ms') (lookup id (move_all into xs ms'))
      (SameShape-on_message x id (move_to_thread into) ms (SameShape-moved into))
      (SameShape-move_all into id xs ms')

is_some-same : (o q : Option Message) → SameShape o q → is_some o ≡ is_some q
is_some-same none none s = refl
is_some-same none (some q) s = absurd s
is_some-same (some o) none s = absurd s
is_some-same (some m) (some n) s = refl

has_id-same :
    (id : MessageId) (o q : Option Message)
    → SameShape o q
    → has_id id o ≡ true
    → has_id id q ≡ true
has_id-same id none none s p = p
has_id-same id none (some q) s p = absurd s
has_id-same id (some o) none s p = absurd s
has_id-same id (some m) (some n) s p = ground arith

has_header-same :
    (h : String) (o q : Option Message)
    → SameShape o q
    → has_header h o ≡ true
    → has_header h q ≡ true
has_header-same h none none s p = p
has_header-same h none (some q) s p = absurd s
has_header-same h (some o) none s p = absurd s
has_header-same h (some m) (some n) s p = ground arith

-- A change of messages and threads that keeps ids and headers, and moves both alike.
module _ (a : Account) (ms : Map Message) (ts : Map Thread)
    (same : (id : MessageId) → SameShape (lookup id a.messages) (lookup id ms))
    (moved : (tid id : MessageId)
      → elem id (members tid ts) ≡ (not (tid == "") && has_thread tid (lookup id ms))) where
  entry_fits-same :
      (h : String) (o : Option MessageId)
      → entry_fits a.messages h o ≡ true
      → entry_fits ms h o ≡ true
  entry_fits-same h none p = refl
  entry_fits-same h (some id) p =
      has_header-same h (lookup id a.messages) (lookup id ms) (same id) p

  pub reshaped-IsValid : IsValid a → IsValid (record a { messages = ms; threads = ts })
  reshaped-IsValid v = record {
    listed = λ id. v.listed id ∙ is_some-same (lookup id a.messages) (lookup id ms) (same id);
    once = v.once;
    keyed = λ id. has_id-same id (lookup id a.messages) (lookup id ms) (same id) (v.keyed id);
    grouped = moved;
    indexed = λ h. entry_fits-same h (lookup h a.by_message_id) (v.indexed h);
    unnamed = v.unnamed;
  }

-- what labels and flags touch
abbrev KeepsThread : (Message → Message) → Type 0
KeepsThread f = (m : Message) → (f m).thread_id ≡ m.thread_id

has_thread-map :
    (f : Message → Message)
    → KeepsThread f
    → (tid : MessageId) (o : Option Message) → has_thread tid (Option.map f o) ≡ has_thread tid o
has_thread-map f keeps tid none = refl
has_thread-map f keeps tid (some m) = rw (keeps m)

has_thread-on_message :
    (msg id tid : MessageId) (f : Message → Message) (ms : Map Message)
    → KeepsThread f
    → has_thread tid (lookup id (on_message msg f ms)) ≡ has_thread tid (lookup id ms)
has_thread-on_message msg id tid f ms keeps =
    rw lookup-on_message (ground (arith, has_thread-map f keeps tid (lookup id ms)))

pub on_message-IsValid :
    (a : Account) (msg : MessageId) (f : Message → Message)
    → KeepsShape f
    → KeepsThread f
    → IsValid a
    → IsValid (record a { messages = on_message msg f a.messages })
on_message-IsValid a msg f shape thread v =
    reshaped-IsValid a (on_message msg f a.messages) a.threads
      (λ id. SameShape-on_message msg id f a.messages shape)
      (λ tid id.
        v.grouped tid id
        ∙ ap (λ (b : Bool). not (tid == "") && b)
            (sym (has_thread-on_message msg id tid f a.messages thread)))
      v

pub map_values-IsValid :
    (a : Account) (f : Message → Message)
    → KeepsShape f
    → KeepsThread f
    → IsValid a
    → IsValid (record a { messages = map_values f a.messages })
map_values-IsValid a f shape thread v =
    reshaped-IsValid a (map_values f a.messages) a.threads
      (λ id. rw lookup-map_values (SameShape-map f shape (lookup id a.messages)))
      (λ tid id. rw lookup-map_values (
        v.grouped tid id
        ∙ ap (λ (b : Bool). not (tid == "") && b)
            (sym (has_thread-map f thread tid (lookup id a.messages)))))
      v

pub merge_same :
    (into from : MessageId) (a : Account)
    → ((into == from || into == "") || from == "") ≡ true
    → merge_threads into from a ≡ a
unfolding merge_threads
merge_same into from a e = rw e

pub merge_absent :
    (into from : MessageId) (a : Account)
    → ((into == from || into == "") || from == "") ≡ false
    → lookup from a.threads ≡ none
    → merge_threads into from a ≡ a
unfolding merge_threads
merge_absent into from a e s = rw (e, s)

pub merged :
    (into from : MessageId) (a : Account) (src : Thread)
    → ((into == from || into == "") || from == "") ≡ false
    → lookup from a.threads ≡ some src
    → merge_threads into from a ≡ (record a {
      messages = move_all into src.message_ids a.messages;
      threads = join_threads into from src a.threads;
    })
unfolding merge_threads
merged into from a src e s = rw (e, s)

is_some-has_thread : (t : MessageId) (o : Option Message) → has_thread t o ≡ true → is_some o ≡ true
is_some-has_thread t none h = h
is_some-has_thread t (some m) h = refl

has_thread_unique :
    (t u : MessageId) (o : Option Message) → has_thread t o ≡ true → has_thread u o ≡ (t == u)
has_thread_unique t u none h = cc
has_thread_unique t u (some m) h = ground (arith, eq_iff m.thread_id t)

merge-grouped :
    (into from tid id : MessageId) (src : Thread) (a : Account)
    → (into == from) ≡ false
    → (into == "") ≡ false
    → (from == "") ≡ false
    → lookup from a.threads ≡ some src
    → IsValid a
    → elem id (members tid (join_threads into from src a.threads))
      ≡ (not (tid == "") && has_thread tid (lookup id (move_all into src.message_ids a.messages)))
merge-grouped into from tid id src a h1 h2 h3 s v =
    rw (elem-join, has_thread-move_all)
      (let g : elem id src.message_ids
            ≡ (not (from == "") && has_thread from (lookup id a.messages)) =
          rw s at (v.grouped from id) in
        ground (
          arith,
          g,
          v.grouped tid id,
          is_some-has_thread from (lookup id a.messages),
          has_thread_unique from tid (lookup id a.messages),
          eq_iff from tid,
          eq_iff into tid,
          eq_iff into from,
          eq_iff into "",
          eq_iff from "",
        ))

pub merge_threads-IsValid :
    (into from : MessageId) (a : Account) → IsValid a → IsValid (merge_threads into from a)
merge_threads-IsValid into from a v =
    go (Bool-cases ((into == from || into == "") || from == ""))
      (Option-cases (lookup from a.threads))
  where
    go :
        (((into == from || into == "") || from == "") ≡ true)
          ⊎ (((into == from || into == "") || from == "") ≡ false)
        → (lookup from a.threads ≡ none) ⊎ ((src : Thread) × (lookup from a.threads ≡ some src))
        → IsValid (merge_threads into from a)
    go (inl e) o = rw (merge_same into from a e) v
    go (inr e) (inl s) = rw (merge_absent into from a e s) v
    go (inr e) (inr (src, s)) = rw (merged into from a src e s) (
        reshaped-IsValid a (move_all into src.message_ids a.messages)
          (join_threads into from src a.threads)
          (λ id. SameShape-move_all into id src.message_ids a.messages)
          (λ tid id.
            merge-grouped into from tid id src a (ground arith) (ground arith) (ground arith) s v)
          v)
