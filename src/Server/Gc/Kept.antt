-- ===== src/Server/Gc/Kept.antt =====
-- What the collection of `GCBlobs` keeps.
use vulos_mail.Common.{
  ℕ, ◌<◌, ◌≡◌, ◌⊎◌, inl, inr, refl, sym, ap, ◌∙◌, String, List, [], ◌∷◌, ◌++◌, Bool, true, false,
  not, ◌||◌, Option, none, some, ◌==◌, ltb, elem, elem-append, arith, Bool-cases, Option-cases,
}
use vulos_mail.Common.Map.{Map, lookup}
use vulos_mail.Common.Map.Keys.{Once}
use vulos_mail.Model.{MessageId, BlobRef, Message}
use vulos_mail.EventLog.{Log}
use vulos_mail.Projection.Snapshot.{Snapshot}
use vulos_mail.EventLog.File.{SnapWire}
use vulos_mail.Account.{Services, Runtime}
use vulos_mail.Account.Reads.{live_blob_refs}
use vulos_mail.Storage.Blob.{BlobFile, BlobInfo, Files, hash_of, list_blobs}
use vulos_mail.Server.Gc.{DirEntry, open_refs, open_dirs, reopened, dir_refs, gc_blobs}
use mathlib.Core.List.{Memᴰ}
use vulos_mail.Server.Gc.Sweep.{
  digest_ref, elem-blob_refs, lookup-sweep_passed, time-list_blobs, apart, in_cons,
}

module _ (l : Log) (s : Services)
    (snaps : Option (l.State → Option (Option (SnapWire Snapshot)))) where
  elem-open_refs :
      (rts : Map (Runtime l s)) (a : String) (rt : Runtime l s) (ref : BlobRef)
      → lookup a rts ≡ some rt
      → elem ref (live_blob_refs rt) ≡ true
      → elem ref (open_refs l s rts) ≡ true
  unfolding lookup open_refs
  elem-open_refs [] a rt ref e live = cc
  elem-open_refs ((b, other) ∷ rts) a rt ref e live = elim (Bool-cases (b == a)) [
    | inl here ↦
        let own : some other ≡ some rt = ground (arith, here, e) in
        let same : other ≡ rt = cc in
        rw same (ground (arith, live, elem-append ref (live_blob_refs rt) (open_refs l s rts)))
    | inr there ↦ ground (
      arith,
      there,
      e,
      elem-open_refs rts a rt ref,
      live,
      elem-append ref (live_blob_refs other) (open_refs l s rts),
    )
  ]

  elem-dir_refs :
      (store : s.Store) (gen : s.Gen) (dirs : List String) (entries : List (DirEntry l))
      (refs : List BlobRef) (d : DirEntry l) (rt : Runtime l s) (ref : BlobRef)
      → Memᴰ d entries
      → d.is_dir ≡ true
      → elem d.name dirs ≡ false
      → reopened l s snaps store gen d ≡ some rt
      → elem ref (live_blob_refs rt) ≡ true
      → dir_refs l s snaps store gen dirs entries ≡ some refs
      → elem ref refs ≡ true
  unfolding dir_refs
  elem-dir_refs store gen dirs [] refs d rt ref at is_dir closed opens live e = elim at [ ]
  elem-dir_refs store gen dirs (c ∷ entries) refs d rt ref at is_dir closed opens live e =
      elim (Bool-cases (not c.is_dir || elem c.name dirs)) [
        | inl skipped ↦ elim (in_cons at) [
          | inl own ↦ elim (apart (is_read c own) skipped) [ ]
          | inr later ↦
              elem-dir_refs store gen dirs entries refs d rt ref later is_dir closed opens live
                (ground (arith, skipped, e))
        ]
        | inr taken ↦ elim (Option-cases (reopened l s snaps store gen c)) [
          | inl failed ↦ ground (arith, taken, failed, e)
          | inr (other, ok) ↦ elim (Option-cases (dir_refs l s snaps store gen dirs entries)) [
            | inl lost ↦ ground (arith, taken, ok, lost, e)
            | inr (rest, more) ↦
                let all : some (live_blob_refs other ++ rest) ≡ some refs =
                  ground (arith, taken, ok, more, e) in
                let split : live_blob_refs other ++ rest ≡ refs = cc in
                ap (elem ref) (sym split)
                ∙ (elem-append ref (live_blob_refs other) rest ∙ elim (in_cons at) [
                  | inl own ↦
                      let both : some other ≡ some rt =
                        sym ok ∙ (ap (reopened l s snaps store gen) (sym own) ∙ opens) in
                      let same : other ≡ rt = cc in rw same (ground (arith, live))
                  | inr later ↦ ground (
                    arith,
                    elem-dir_refs store gen dirs entries rest d rt ref later is_dir closed opens
                        live more,
                  )
                ])
          ]
        ]
      ]
    where
      is_read : (c : DirEntry l) → d ≡ c → (not c.is_dir || elem c.name dirs) ≡ false
      is_read c own = rw (sym own) (ground (arith, is_dir, closed))

  -- one account that cannot be read spoils the whole
  dir_refs-unread :
      (store : s.Store) (gen : s.Gen) (dirs : List String) (entries : List (DirEntry l))
      (d : DirEntry l)
      → Memᴰ d entries
      → (not d.is_dir || elem d.name dirs) ≡ false
      → reopened l s snaps store gen d ≡ none
      → dir_refs l s snaps store gen dirs entries ≡ none
  unfolding dir_refs
  dir_refs-unread store gen dirs [] d at read bad = elim at [ ]
  dir_refs-unread store gen dirs (c ∷ entries) d at read bad = elim (in_cons at) [
    | inl own ↦ rw (sym own) (rw (read, bad) refl)
    | inr later ↦
        let rest = dir_refs-unread store gen dirs entries d later read bad in
        elim (Bool-cases (not c.is_dir || elem c.name dirs)) [
          | inl skipped ↦ rw skipped rest
          | inr taken ↦ elim (Option-cases (reopened l s snaps store gen c)) [
            | inl failed ↦ rw (taken, failed) refl
            | inr (other, ok) ↦ rw (taken, ok, rest) refl
          ]
        ]
  ]

  module _ (store : s.Store) (gen : s.Gen) (rts : Map (Runtime l s))
      (entries : List (DirEntry l)) where
    -- the runtime of an account of the server: an open one, or what its directory opens to
    abbrev pub Hosts : Runtime l s → Type 0
    Hosts rt =
        ((a : String) × (lookup a rts ≡ some rt))
        ⊎ ((d : DirEntry l) × (Memᴰ d entries
              × ((d.is_dir ≡ true)
                  × ((elem d.name (open_dirs l s rts) ≡ false)
                      × (reopened l s snaps store gen d ≡ some rt)))))

    -- a stored message has the body
    abbrev pub HasBody : String → Runtime l s → Type 0
    HasBody h rt =
        (id : MessageId) × ((m : Message) × ((lookup id rt.proj.messages ≡ some m)
            × (hash_of m.blob_ref ≡ some h)))

    abbrev pub Wanted : ℕ → Files → String → Type 0
    Wanted cutoff fs h =
        ((rt : Runtime l s) × (Hosts rt × HasBody h rt))
        ⊎ ((f : BlobFile) × ((lookup h fs ≡ some f) × (cutoff < f.mod_time)))

    live_of_Hosts :
        (rt : Runtime l s) (refs : List BlobRef) (ref : BlobRef)
        → Hosts rt
        → dir_refs l s snaps store gen (open_dirs l s rts) entries ≡ some refs
        → elem ref (live_blob_refs rt) ≡ true
        → elem ref (open_refs l s rts ++ refs) ≡ true
    live_of_Hosts rt refs ref (inl (a, e)) got live =
        ground (arith, elem-append ref (open_refs l s rts) refs, elem-open_refs rts a rt ref e live)
    live_of_Hosts rt refs ref (inr (d, (at, (is_dir, (closed, opens))))) got live = ground (
      arith,
      elem-append ref (open_refs l s rts) refs,
      elem-dir_refs store gen (open_dirs l s rts) entries refs d rt ref at is_dir closed opens live
          got,
    )

    passed_of_Wanted :
        (cutoff : ℕ) (fs : Files) (h : String) (refs : List BlobRef) (b : BlobInfo)
        → Once fs
        → Wanted cutoff fs h
        → dir_refs l s snaps store gen (open_dirs l s rts) entries ≡ some refs
        → Memᴰ b (list_blobs fs)
        → hash_of b.ref ≡ some h
        → (elem b.ref (open_refs l s rts ++ refs) || ltb cutoff b.time) ≡ true
    unfolding live_blob_refs
    passed_of_Wanted cutoff fs h refs b once (inl (rt, (hosts, (id, (m, (stored, digest)))))) got at
          named =
        let same : m.blob_ref ≡ b.ref =
          sym (digest_ref m.blob_ref h digest) ∙ digest_ref b.ref h named in
        ground (
          arith,
          live_of_Hosts rt refs b.ref hosts got (
              ap (λ r. elem r (live_blob_refs rt)) (sym same)
              ∙ elem-blob_refs rt.proj.messages id m stored),
        )
    passed_of_Wanted cutoff fs h refs b once (inr (f, (found, recent))) got at named =
        ground (arith, time-list_blobs fs h f b once found at named)

    -- Whatever a collection answers and whichever files can be removed, it leaves the file of every body that a
    -- stored message of an account has, of an open account or of one whose directory opens, from its snapshot
    -- where it has one, and of every body that is newer than the cutoff. The names of the files are taken to be
    -- distinct.
    pub lookup-gc_blobs :
        (removes : String → Bool) (cutoff : ℕ) (fs : Files) (h : String)
        → Once fs
        → Wanted cutoff fs h
        → lookup h (gc_blobs l s snaps store gen removes rts (some entries) cutoff fs).1
          ≡ lookup h fs
    unfolding gc_blobs
    lookup-gc_blobs removes cutoff fs h once wanted =
        elim (Option-cases (dir_refs l s snaps store gen (open_dirs l s rts) entries)) [
          | inl failed ↦ rw (gc_blobs, failed) refl
          | inr (refs, got) ↦
              rw (gc_blobs, got)
                (lookup-sweep_passed removes (open_refs l s rts ++ refs) cutoff (list_blobs fs) fs h
                  (λ b. passed_of_Wanted cutoff fs h refs b once wanted got))
        ]

    -- If one directory that is not of an open account does not open, a collection answers an error and
    -- leaves all files.
    pub gc_blobs-unread :
        (removes : String → Bool) (cutoff : ℕ) (fs : Files) (d : DirEntry l)
        → Memᴰ d entries
        → (not d.is_dir || elem d.name (open_dirs l s rts)) ≡ false
        → reopened l s snaps store gen d ≡ none
        → gc_blobs l s snaps store gen removes rts (some entries) cutoff fs ≡ (none, fs)
    unfolding gc_blobs
    gc_blobs-unread removes cutoff fs d at read bad =
        rw (gc_blobs, dir_refs-unread store gen (open_dirs l s rts) entries d at read bad) refl
