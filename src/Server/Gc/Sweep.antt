-- ===== src/Server/Gc/Sweep.antt =====
-- The loop of `GCBlobs` over the bodies of the store.
use vulos_mail.Common.{
  ℕ, ◌≡◌, ◌⊎◌, inl, inr, refl, sym, ap, ◌∙◌, String, List, [], ◌∷◌, Bool, true, false, ◌||◌, some,
  ◌==◌, eqb, ltb, elem, arith, eq_iff, Bool-cases, Option-cases, str_eq_refl, String-cases,
}
use vulos_mail.Common.Map.{Map, lookup}
use vulos_mail.Common.Map.Keys.{Once}
use vulos_mail.Common.Text.{cat}
use vulos_mail.Model.{MessageId, BlobRef, Message}
use vulos_mail.Account.Reads.{blob_refs}
use vulos_mail.Storage.Blob.{BlobFile, BlobInfo, Files, after_prefix, hash_of, delete, list_blobs}
use vulos_mail.Storage.Blob.Readback.{lookup-delete}
use vulos_mail.Server.Gc.{sweep}
use Prim.Native.Char.{code}
use mathlib.Core.List.{Memᴰ}
use text.Mathlib.TextEquality.{Char-path}

pub apart : {b : Bool} → b ≡ false → b ≡ true → ⊥
apart f t = cc

-- a ref is its prefix and its digest
cat-after_prefix : (p s h : String) → after_prefix p s ≡ some h → cat p h ≡ s
unfolding after_prefix cat
cat-after_prefix String.[] s h e = cc
cat-after_prefix (String.◌∷◌ c p) String.[] h e = cc
cat-after_prefix (String.◌∷◌ c p) (String.◌∷◌ d s) h e = elim (Bool-cases (eqb (code c) (code d))) [
  | inl same ↦
      let fits : after_prefix p s ≡ some h = ground (arith, same, e) in
      λ i. String.◌∷◌ (Char-path c d (ground (arith, same)) i) (cat-after_prefix p s h fits i)
  | inr differ ↦ ground (arith, differ, e)
]

pub digest_ref : (ref : BlobRef) (h : String) → hash_of ref ≡ some h → cat "sha256:" h ≡ ref
unfolding hash_of
digest_ref ref h e = elim (Option-cases (after_prefix "sha256:" ref)) [
  | inl other ↦ ground (arith, other, e)
  | inr (g, fits) ↦ elim (String-cases g h) [
    | inl same ↦ ap (cat "sha256:") (sym same) ∙ cat-after_prefix "sha256:" ref g fits
    | inr differ ↦ ground (arith, fits, e, differ, eq_iff g h)
  ]
]

pub elem-blob_refs :
    (ms : Map Message) (id : MessageId) (m : Message)
    → lookup id ms ≡ some m
    → elem m.blob_ref (blob_refs ms) ≡ true
unfolding lookup blob_refs elem
elem-blob_refs [] id m e = cc
elem-blob_refs ((i, n) ∷ ms) id m e = elim (Bool-cases (i == id)) [
  | inl here ↦
      let own : some n ≡ some m = ground (arith, here, e) in
      let same : n ≡ m = cc in rw same (ground (arith, str_eq_refl m.blob_ref))
  | inr there ↦ ground (arith, there, e, elem-blob_refs ms id m)
]

-- the loop leaves a body all of whose entries are passed over
pub lookup-sweep_passed :
    (removes : String → Bool) (live : List BlobRef) (cutoff : ℕ) (bs : List BlobInfo) (fs : Files)
    (h : String)
    → ((b : BlobInfo)
        → Memᴰ b bs
        → hash_of b.ref ≡ some h
        → (elem b.ref live || ltb cutoff b.time) ≡ true)
    → lookup h (sweep removes live cutoff bs fs).1 ≡ lookup h fs
unfolding sweep
lookup-sweep_passed removes live cutoff [] fs h passed = refl
lookup-sweep_passed removes live cutoff (b ∷ bs) fs h passed =
    elim (Bool-cases (elem b.ref live || ltb cutoff b.time)) [
      | inl skipped ↦
          rw skipped
            (lookup-sweep_passed removes live cutoff bs fs h (λ c at. passed c (Memᴰ.tail at)))
      | inr taken ↦ rw taken (
          lookup-sweep_passed removes live cutoff bs (delete removes b.ref fs).1 h
            (λ c at. passed c (Memᴰ.tail at))
          ∙ elim (lookup-delete removes b.ref fs h) [
            | inl as_before ↦ as_before
            | inr (own, gone) ↦ elim (apart taken (passed b (Memᴰ.head refl) own)) [ ]
          ])
    ]

named_digest : (k h : String) → hash_of (cat "sha256:" k) ≡ some h → k ≡ h
unfolding hash_of after_prefix cat
named_digest k h e = ground (arith, e, eq_iff k h)

module _ {A : Type 0} where
  pub in_cons : {a b : A} {l : List A} → Memᴰ a (b ∷ l) → (a ≡ b) ⊎ Memᴰ a l
  in_cons (Memᴰ.head e) = inl e
  in_cons (Memᴰ.tail m) = inr m

-- a listed body has a file, with its time
listed_file :
    (fs : Files) (b : BlobInfo)
    → Once fs
    → Memᴰ b (list_blobs fs)
    → (k : String) × ((f : BlobFile) × ((b ≡ record { ref = cat "sha256:" k; time = f.mod_time })
          × (lookup k fs ≡ some f)))
unfolding list_blobs lookup
listed_file [] b once at = elim at [ ]
listed_file ((k, g) ∷ fs) b once at = elim (in_cons at) [
  | inl own ↦ (k, (g, (own, ground (arith, str_eq_refl k))))
  | inr later ↦
      let (j, (f, (e, found))) = listed_file fs b once.1 later in
      (j, (f, (e, ground (arith, found, once.0, eq_iff k j))))
]

pub time-list_blobs :
    (fs : Files) (h : String) (f : BlobFile) (b : BlobInfo)
    → Once fs
    → lookup h fs ≡ some f
    → Memᴰ b (list_blobs fs)
    → hash_of b.ref ≡ some h
    → b.time ≡ f.mod_time
time-list_blobs fs h f b once e at named =
    let (k, (g, (own, found))) = listed_file fs b once at in
    let same : k ≡ h = named_digest k h (sym (ap (λ c. hash_of c.ref) own) ∙ named) in
    let here : lookup h fs ≡ some g = ap (λ j. lookup j fs) (sym same) ∙ found in
    let files : g ≡ f = cc in ap (λ c. c.time) own ∙ ap (λ g. g.mod_time) files
