-- ===== src/Threading.antt =====
-- internal/threading: the thread of a message by its reference chain. `next` is the id generator.
use vulos_mail.Common.{String, List, [], ◌∷◌, ◌++◌, Option, none, some, ◌==◌, if◌then◌else◌}
use vulos_mail.Common.Map.{Map, lookup, insert}
use vulos_mail.Model.{MessageId, Envelope}

unfoldable pub seed : Map MessageId → Map MessageId → Map MessageId
seed [] by_header = by_header
seed ((h, tid) ∷ m) by_header = seed m (if h == "" then by_header else insert h tid by_header)

-- References, then In-Reply-To
unfoldable pub candidates : Envelope → List String
candidates env =
    if env.in_reply_to == "" then env.references else env.references ++ env.in_reply_to ∷ []

-- the first reference that is known
unfoldable pub find_thread : List String → Map MessageId → Option MessageId
find_thread [] by_header = none
find_thread (r ∷ refs) by_header =
    let rest = find_thread refs by_header in
    if r == "" then rest else elim (lookup r by_header) [ none ↦ rest | some tid ↦ some tid ]

module _ {G : Type 0} (next : G → String × G) where
  -- an empty thread id counts as none
  choose : Option MessageId → G → MessageId × G
  choose none gen = next gen
  choose (some tid) gen = if tid == "" then next gen else (tid, gen)

  unfoldable pub resolve : Envelope → Map MessageId → G → MessageId × Map MessageId × G
  unfolding choose candidates find_thread
  resolve env by_header gen =
      let (tid, gen') = choose (find_thread (candidates env) by_header) gen in
      (
        tid,
        (if env.message_id_header == ""
            then by_header
            else insert env.message_id_header tid by_header),
        gen',
      )
