-- ===== src/Storage/Blob/Readback.antt =====
-- Reading back what internal/blob/blob.go has stored.
use vulos_mail.Common.{
  ℕ, ◌≡◌, ◌≢◌, ◌⊎◌, ◌&&◌, not, refl, sym, ap, ◌∙◌, String, List, [], ◌∷◌, Bool, true, Option, none,
  some, ◌==◌, arith, eq_iff, if◌then◌else◌, Bool-cases, Option-cases, inl, inr, str_eq_refl,
}
use vulos_mail.Common.Map.{is_some, lookup, lookup-insert, lookup-erase}
use vulos_mail.Model.{BlobRef}
use vulos_mail.Storage.Blob.{
  Bytes, Codecs, BlobFile, Files, got, ref_of, hash_of, put, checked_body, get, delete,
}

-- what the code relies on: a digest is 64 hex characters, and zstd undoes its own frames
pub record IsLawful (c : Codecs) : Type 0 where
  pub sum_hex : (body : Bytes) → hash_of (ref_of c body) ≡ some (c.sum body)
  pub unpacks : (body : Bytes) → c.decompress (c.compress body) ≡ some body

-- a call of the store, with what the file system does
pub data Use : Type 0 where
  stored : ℕ → Bool → Bytes → Use
  deleted : Bool → BlobRef → Use

module _ (c : Codecs) where
  unfoldable pub apply_use : Use → Files → Files
  apply_use (stored now written body) fs = (put c now written body fs).1
  apply_use (deleted removes ref) fs = (delete (λ h. removes) ref fs).1

  unfoldable pub run_uses : List Use → Files → Files
  unfolding apply_use
  run_uses [] fs = fs
  run_uses (u ∷ us) fs = run_uses us (apply_use u fs)

  -- every file is a packed body of its digest
  abbrev pub IsSound : Files → Type 0
  IsSound fs =
      (h : String) (f : BlobFile)
      → lookup h fs ≡ some f
      → (body : Bytes) × ((c.decompress f.packed ≡ some body) × (c.sum body ≡ h))

  -- no call deletes the ref
  abbrev pub Spares : BlobRef → List Use → Type 0
  Spares ref [] = Unit
  Spares ref (stored now written body ∷ us) = Spares ref us
  Spares ref (deleted removes r ∷ us) = (hash_of r ≢ hash_of ref) × Spares ref us

-- a deletion removes at most the file of its ref
pub lookup-delete :
    (removes : String → Bool) (ref : BlobRef) (fs : Files) (h : String)
    → (lookup h (delete removes ref fs).1 ≡ lookup h fs)
      ⊎ ((hash_of ref ≡ some h) × (lookup h (delete removes ref fs).1 ≡ none))
unfolding delete
lookup-delete removes ref fs h = elim (Option-cases (hash_of ref)) [
  | inl malformed ↦ inl (ground (arith, malformed))
  | inr (g, named) ↦ elim (Bool-cases (g == h)) [
    | inl own ↦ elim (Bool-cases (is_some (lookup g fs) && removes g)) [
      | inl gone ↦ inr (
        ground (arith, named, own, eq_iff g h),
        ground (arith, named, own, gone, eq_iff g h, lookup-erase g h fs),
      )
      | inr stays ↦ inl (ground (arith, named, stays, lookup-erase g h fs))
    ]
    | inr other ↦ inl (ground (arith, named, other, lookup-erase g h fs))
  ]
]

clash : {o : Option BlobFile} {f : BlobFile} → o ≡ none → o ≡ some f → ⊥
clash gone e = cc

nothing : (h : String) (f : BlobFile) → lookup h [] ≡ some f → ⊥
unfolding lookup
nothing h f e = cc

module _ (c : Codecs) (lawful : IsLawful c) where
  lookup-put :
      (now : ℕ) (written : Bool) (body : Bytes) (fs : Files) (h : String)
      → lookup h (put c now written body fs).1 ≡ (
          if c.sum body == h && (written && not (is_some (lookup h fs)))
          then some (record { mod_time = now; packed = c.compress body })
          else lookup h fs)
  unfolding put
  lookup-put now written body fs h = ground (
    arith,
    lawful.sum_hex body,
    eq_iff (c.sum body) h,
    lookup-insert (c.sum body) h (record { mod_time = now; packed = c.compress body }) fs,
  )

  IsSound-put :
      (now : ℕ) (w : Bool) (body : Bytes) (fs : Files)
      → IsSound c fs
      → IsSound c (put c now w body fs).1
  IsSound-put now w body fs s h f e =
      elim (Bool-cases (c.sum body == h && (w && not (is_some (lookup h fs))))) [
        | inl fresh ↦ (
          body,
          (
            ground (arith, fresh, e, lookup-put now w body fs h, lawful.unpacks body),
            ground (arith, fresh, eq_iff (c.sum body) h),
          ),
        )
        | inr as_before ↦ s h f (ground (arith, as_before, e, lookup-put now w body fs h))
      ]

  IsSound-delete :
      (removes : String → Bool) (ref : BlobRef) (fs : Files)
      → IsSound c fs
      → IsSound c (delete removes ref fs).1
  IsSound-delete removes ref fs s h f e = elim (lookup-delete removes ref fs h) [
    | inl as_before ↦ s h f (sym as_before ∙ e)
    | inr (own, gone) ↦ elim (clash gone e) [ ]
  ]

  IsSound-run_uses : (us : List Use) (fs : Files) → IsSound c fs → IsSound c (run_uses c us fs)
  unfolding run_uses
  IsSound-run_uses [] fs s = s
  IsSound-run_uses (stored now w body ∷ us) fs s =
      IsSound-run_uses us _ (IsSound-put now w body fs s)
  IsSound-run_uses (deleted removes ref ∷ us) fs s =
      IsSound-run_uses us _ (IsSound-delete (λ h. removes) ref fs s)

  -- what is there stays there until its ref is deleted
  present-run_uses :
      (us : List Use) (ref : BlobRef) (h : String) (fs : Files)
      → hash_of ref ≡ some h
      → Spares c ref us
      → is_some (lookup h fs) ≡ true
      → is_some (lookup h (run_uses c us fs)) ≡ true
  unfolding run_uses
  present-run_uses [] ref h fs named spared there = there
  present-run_uses (stored now w body ∷ us) ref h fs named spared there =
      present-run_uses us ref h _ named spared (ground (arith, there, lookup-put now w body fs h))
  present-run_uses (deleted removes r ∷ us) ref h fs named spared there =
      present-run_uses us ref h _ named spared.1 (elim (lookup-delete (λ g. removes) r fs h) [
        | inl as_before ↦ ap is_some as_before ∙ there
        | inr (own, gone) ↦ absurd (spared.0 (own ∙ sym named))
      ])

  -- after a Put that answered, its file is there
  put-present :
      (now : ℕ) (written : Bool) (body : Bytes) (fs : Files)
      → (put c now written body fs).0 ≢ none
      → is_some (lookup (c.sum body) (put c now written body fs).1) ≡ true
  unfolding put
  put-present now written body fs answered = elim (Option-cases (lookup (c.sum body) fs)) [
    | inr (f, there) ↦ ground (arith, there, lawful.sum_hex body)
    | inl absent ↦ elim (Bool-cases written) [
      | inl ok ↦ ground (
        arith,
        ok,
        absent,
        lawful.sum_hex body,
        str_eq_refl (c.sum body),
        lookup-insert (c.sum body) (c.sum body)
            (record { mod_time = now; packed = c.compress body }) fs,
      )
      | inr lost ↦ absurd (answered (ground (arith, lost, absent, lawful.sum_hex body)))
    ]
  ]

  -- A sound file that is there is read back.
  get_sound :
      (body : Bytes) (fs : Files)
      → IsSound c fs
      → is_some (lookup (c.sum body) fs) ≡ true
      → ((other : Bytes) → c.sum other ≡ c.sum body → other ≡ body)
      → get c (ref_of c body) fs ≡ got body
  unfolding get checked_body
  get_sound body fs s there single = elim (Option-cases (lookup (c.sum body) fs)) [
    | inl absent ↦ ground (arith, absent, there)
    | inr (f, found) ↦
        let (kept, (unpacked, same)) = s (c.sum body) f found in
        rw
          (
            get,
            lawful.sum_hex body,
            found,
            checked_body,
            unpacked,
            single kept same,
            str_eq_refl (ref_of c body),
          )
          refl
  ]

  -- A body that a Put answered with its ref is what Get returns for that ref, whatever calls came before and come
  -- after, failing ones included, as long as no later call deletes the ref and no other body has the same digest.
  -- The digests are taken to be 64 hex characters and the frames to be unpacked to what was packed.
  pub get-run_uses :
      (before after : List Use) (now : ℕ) (written : Bool) (body : Bytes)
      → let (answer, fs) = put c now written body (run_uses c before []) in
        answer ≢ none
        → Spares c (ref_of c body) after
        → ((other : Bytes) → c.sum other ≡ c.sum body → other ≡ body)
        → get c (ref_of c body) (run_uses c after fs) ≡ got body
  get-run_uses before after now written body answered spared single =
      let fs = (put c now written body (run_uses c before [])).1 in
      let start : IsSound c (run_uses c before []) =
        IsSound-run_uses before [] (λ h f e. elim (nothing h f e) [ ]) in
      get_sound body (run_uses c after fs)
        (IsSound-run_uses after fs (IsSound-put now written body (run_uses c before []) start))
        (present-run_uses after (ref_of c body) (c.sum body) fs (lawful.sum_hex body) spared
          (put-present now written body (run_uses c before []) answered))
        single
