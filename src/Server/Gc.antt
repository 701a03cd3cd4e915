-- ===== src/Server/Gc.antt =====
-- internal/server/manager.go: `GCBlobs`, over the open accounts by their addresses, the entries of the directory
-- of accounts with what opening the log of each gives, and the store of bodies. The library's calls that can
-- fail have their outcomes as arguments: reading the directory, opening a log, removing a file.
pub mod Sweep
pub mod Kept
use vulos_mail.Common.{
  ℕ, zero, ◌+◌, ◌≡◌, String, List, [], ◌∷◌, ◌++◌, Bool, true, false, not, ◌&&◌, ◌||◌, Option, none,
  some, ◌==◌, eqb, ltb, if◌then◌else◌, elem,
}
use vulos_mail.Common.Map.{Map}
use vulos_mail.Common.Text.{cat}
use vulos_mail.Model.{BlobRef}
use vulos_mail.EventLog.{Log}
use vulos_mail.Projection.Snapshot.{Snapshot}
use vulos_mail.EventLog.File.{SnapWire}
use vulos_mail.Account.{Services, Runtime}
use vulos_mail.Account.Compact.{open_account}
use vulos_mail.Account.Reads.{live_blob_refs}
use vulos_mail.Storage.Blob.{BlobInfo, Files, list_blobs, delete}
use Prim.Native.Char.{code}

-- `safeName`, the replacer of "@", "/", "\" and ".."
unfoldable pub safe_name : String → String
safe_name String.[] = String.[]
safe_name (String.◌∷◌ c String.[]) =
    if eqb (code c) 64
    then "_at_"
    else if eqb (code c) 47 || eqb (code c) 92
    then "_"
    else String.◌∷◌ c String.[]
safe_name (String.◌∷◌ c (String.◌∷◌ d s)) =
    let after_both = safe_name s in
    let after_one = safe_name (String.◌∷◌ d s) in
    if eqb (code c) 64
    then cat "_at_" after_one
    else if eqb (code c) 47 || eqb (code c) 92
    then cat "_" after_one
    else if eqb (code c) 46 && eqb (code d) 46
    then cat "_" after_both
    else String.◌∷◌ c after_one

-- an entry of the directory; a log that cannot be opened is `none`
pub record DirEntry (l : Log) : Type 0 where
  pub name : String
  pub is_dir : Bool
  pub opened : Option l.State

module _ (l : Log) (s : Services) where
  -- the refs of the open accounts
  unfoldable pub open_refs : Map (Runtime l s) → List BlobRef
  unfolding live_blob_refs
  open_refs [] = []
  open_refs ((a, rt) ∷ rts) = live_blob_refs rt ++ open_refs rts

  unfoldable pub open_dirs : Map (Runtime l s) → List String
  unfolding safe_name
  open_dirs [] = []
  open_dirs ((a, rt) ∷ rts) = safe_name a ∷ open_dirs rts

-- the third argument is the `LoadSnapshot` of the logs, where they have it
module _ (l : Log) (s : Services)
    (snaps : Option (l.State → Option (Option (SnapWire Snapshot)))) where
  -- `account.Open` on the log of an entry
  unfoldable pub reopened : s.Store → s.Gen → DirEntry l → Option (Runtime l s)
  reopened store gen d = elim (d.opened) [
    | none ↦ none
    | some log ↦ open_account l s snaps log store gen
  ]

  -- the loop over the entries; `none` as soon as an account cannot be read
  unfoldable pub dir_refs :
      s.Store → s.Gen → List String → List (DirEntry l) → Option (List BlobRef)
  dir_refs store gen dirs [] = some []
  dir_refs store gen dirs (d ∷ ds) =
      let rest = dir_refs store gen dirs ds in
      if not d.is_dir || elem d.name dirs then rest else elim (reopened store gen d) [
        | none ↦ none
        | some rt ↦ elim rest [ none ↦ none | some refs ↦ some (live_blob_refs rt ++ refs) ]
      ]

-- the loop over the bodies: a body that is live or newer than the cutoff is passed over
unfoldable pub sweep : (String → Bool) → List BlobRef → ℕ → List BlobInfo → Files → ℕ × Files
unfolding delete
sweep removes live cutoff [] fs = (0, fs)
sweep removes live cutoff (b ∷ bs) fs =
    let (done, fs') =
      if elem b.ref live || ltb cutoff b.time then (false, fs) else delete removes b.ref fs in
    let (n, end) = sweep removes live cutoff bs fs' in ((if done then 1 else 0) + n, end)

module _ (l : Log) (s : Services)
    (snaps : Option (l.State → Option (Option (SnapWire Snapshot)))) where
  -- `GCBlobs`: the number of deleted bodies, `none` for an error; a directory that cannot be read is `none`, and
  -- one that is not there has no entries
  unfoldable pub gc_blobs :
      s.Store
      → s.Gen
      → (String → Bool)
      → Map (Runtime l s)
      → Option (List (DirEntry l))
      → ℕ
      → Files
      → Option ℕ × Files
  unfolding open_refs open_dirs dir_refs sweep list_blobs
  gc_blobs store gen removes rts none cutoff fs = (none, fs)
  gc_blobs store gen removes rts (some entries) cutoff fs =
      elim (dir_refs l s snaps store gen (open_dirs l s rts) entries) [
        | none ↦ (none, fs)
        | some refs ↦
            let (n, fs') = sweep removes (open_refs l s rts ++ refs) cutoff (list_blobs fs) fs in
            (some n, fs')
      ]
