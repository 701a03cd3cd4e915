-- ===== src/Projection/Threads.antt =====
-- internal/projection/projection.go: what attaching, detaching and merging do to the members of each thread.
use mathlib.Core.Option
use vulos_mail.Common.{
  ◌≡◌, refl, List, [], ◌∷◌, ◌++◌, Bool, false, not, ◌&&◌, ◌||◌, Option, none, some, arith, ◌==◌,
  eq_iff, if◌then◌else◌, keep, elem, elem-append, elem-snoc, Option-cases, inl, inr,
}
use vulos_mail.Common.Map.{Map, lookup, lookup-insert, lookup-erase, lookup-filter_values, is_some}
use vulos_mail.Model.{MessageId, Message, Thread}
use vulos_mail.Projection.{
  attach_to_thread, remove_id, without_message, detach_from_threads, on_message, move_to_thread,
  move_all, join_threads,
}

abbrev pub ids_of : Option Thread → List MessageId
ids_of none = []
ids_of (some t) = t.message_ids

abbrev pub members : MessageId → Map Thread → List MessageId
members tid threads = ids_of (lookup tid threads)

-- whether a message, if there is one, belongs to a thread
abbrev pub has_thread : MessageId → Option Message → Bool
has_thread tid none = false
has_thread tid (some m) = m.thread_id == tid

pub elem-remove_id :
    (id msg : MessageId) (ids : List MessageId)
    → elem id (remove_id ids msg) ≡ (not (msg == id) && elem id ids)
unfolding remove_id keep elem
elem-remove_id id msg [] = ground arith
elem-remove_id id msg (x ∷ xs) =
    ground (arith, elem-remove_id id msg xs, eq_iff x msg, eq_iff x id, eq_iff msg id)

ids_of-without_message :
    (msg : MessageId) (t : Thread) → ids_of (without_message msg t) ≡ remove_id t.message_ids msg
unfolding without_message
ids_of-without_message msg t = ground arith

pub elem-detach :
    (id msg tid : MessageId) (threads : Map Thread)
    → elem id (members tid (detach_from_threads msg threads))
      ≡ (not (msg == id) && elem id (members tid threads))
unfolding detach_from_threads Option.bind elem
elem-detach id msg tid threads = rw lookup-filter_values (go (lookup tid threads))
  where
    go :
        (o : Option Thread)
        → elem id (ids_of (Option.bind o (without_message msg)))
          ≡ (not (msg == id) && elem id (ids_of o))
    go none = ground arith
    go (some t) = rw (ids_of-without_message msg t) (elem-remove_id id msg t.message_ids)

pub elem-attach :
    (id msg tid t : MessageId) (threads : Map Thread)
    → elem id (members t (attach_to_thread tid msg threads))
      ≡ (elem id (members t threads) || (not (tid == "") && (tid == t && msg == id)))
unfolding attach_to_thread elem
elem-attach id msg tid t threads = elim (Option-cases (lookup tid threads)) [
  | inl e ↦ ground (
    arith,
    e,
    eq_iff tid t,
    lookup-insert tid t (record { id = tid; message_ids = msg ∷ [] }) threads,
  )
  | inr (th, e) ↦ ground (
    arith,
    e,
    eq_iff tid t,
    elem-snoc id msg th.message_ids,
    lookup-insert tid t (record th { message_ids = th.message_ids ++ msg ∷ [] }) threads,
  )
]

pub lookup-on_message :
    (id j : MessageId) (f : Message → Message) (ms : Map Message)
    → lookup j (on_message id f ms) ≡ (if id == j then Option.map f (lookup j ms) else lookup j ms)
unfolding on_message
lookup-on_message id j f ms = elim (Option-cases (lookup id ms)) [
  | inl e ↦ ground (arith, e, eq_iff id j)
  | inr (m, e) ↦ ground (arith, e, eq_iff id j, lookup-insert id j (f m) ms)
]

has_thread-moved :
    (into t : MessageId) (o : Option Message)
    → has_thread t (Option.map (move_to_thread into) o) ≡ (into == t && is_some o)
unfolding move_to_thread
has_thread-moved into t o = ground arith

-- after the loop of a merge, a message of the list belongs to the target
pub has_thread-move_all :
    (into t id : MessageId) (ids : List MessageId) (ms : Map Message)
    → has_thread t (lookup id (move_all into ids ms))
      ≡ (if elem id ids then into == t && is_some (lookup id ms) else has_thread t (lookup id ms))
unfolding move_all elem
has_thread-move_all into t id [] ms = refl
has_thread-move_all into t id (x ∷ xs) ms = ground (
  arith,
  has_thread-move_all into t id xs (on_message x (move_to_thread into) ms),
  lookup-on_message x id (move_to_thread into) ms,
  has_thread-moved into t (lookup id ms),
)

pub elem-join :
    (id into from t : MessageId) (src : Thread) (threads : Map Thread)
    → elem id (members t (join_threads into from src threads)) ≡ (
        if from == t
        then false
        else elem id (members t threads) || (into == t && elem id src.message_ids))
unfolding join_threads elem
elem-join id into from t src threads = elim (Option-cases (lookup into threads)) [
  | inl e ↦ rw (lookup-erase) (rw (e, lookup-insert) (ground (arith, e, eq_iff into t)))
  | inr (th, e) ↦ rw (lookup-erase) (
      rw (e, lookup-insert)
        (ground (arith, e, eq_iff into t, elem-append id th.message_ids src.message_ids)))
]
