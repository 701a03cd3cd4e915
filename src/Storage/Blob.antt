-- ===== src/Storage/Blob.antt =====
-- internal/blob/blob.go: the store of bodies on the file system. A body is kept compressed under the digest of
-- its content, in the file <root>/<digest[:2]>/<digest>, so that the files are a map from digests. SHA-256 with
-- hex (`sum`) and zstd (`compress`, `decompress`) are parameters. Of a file there is its time and its bytes; the
-- outcomes of the file system are arguments. Temporary files, which only Put reads, are left out.
pub mod Readback
use vulos_mail.Common.{
  ℕ, zero, suc, ◌+◌, ◌≡◌, String, List, [], ◌∷◌, Bool, true, false, ◌&&◌, ◌||◌, Option, none, some,
  ◌==◌, eqb, leb, if◌then◌else◌,
}
use vulos_mail.Common.Map.{Map, is_some, lookup, insert, erase}
use vulos_mail.Common.Text.{cat}
use vulos_mail.Model.{BlobRef}
use Prim.Native.Char.{code}

abbrev pub Bytes : Type 0
Bytes = List ℕ

-- SHA-256 in hex, and zstd
pub record Codecs : Type 0 where
  pub sum : Bytes → String
  pub compress : Bytes → Bytes
  pub decompress : Bytes → Option Bytes

pub record BlobFile : Type 0 where
  pub mod_time : ℕ
  pub packed : Bytes

-- the files under the root, by their names
abbrev pub Files : Type 0
Files = Map BlobFile

-- one `BlobInfo`
pub record BlobInfo : Type 0 where
  pub ref : BlobRef
  pub time : ℕ

pub data GetResult : Type 0 where
  got : Bytes → GetResult
  not_found broken : GetResult

-- `Ref`
unfoldable pub ref_of : Codecs → Bytes → BlobRef
ref_of c body = cat "sha256:" (c.sum body)

-- the text after a prefix
unfoldable pub after_prefix : String → String → Option String
after_prefix String.[] s = some s
after_prefix (String.◌∷◌ p ps) String.[] = none
after_prefix (String.◌∷◌ p ps) (String.◌∷◌ c s) =
    let rest = after_prefix ps s in if eqb (code p) (code c) then rest else none

unfoldable pub is_hex : ℕ → Bool
is_hex c = (leb 48 c && leb c 57) || (leb 97 c && leb c 102)

unfoldable pub all_hex : String → Bool
unfolding is_hex
all_hex String.[] = true
all_hex (String.◌∷◌ c s) = is_hex (code c) && all_hex s

-- `len`, of a text that is ASCII wherever the result is used
unfoldable pub len_of : String → ℕ
len_of String.[] = 0
len_of (String.◌∷◌ c s) = suc (len_of s)

-- `hashOf`
unfoldable pub hash_of : BlobRef → Option String
unfolding after_prefix all_hex len_of
hash_of ref = elim (after_prefix "sha256:" ref) [
  | none ↦ none
  | some h ↦ if eqb (len_of h) 64 && all_hex h then some h else none
]

module _ (c : Codecs) where
  -- `Put`, with the time and whether the file could be written and renamed
  unfoldable pub put : ℕ → Bool → Bytes → Files → Option BlobRef × Files
  unfolding ref_of
  put now written body fs = elim (hash_of (ref_of c body)) [
    | none ↦ (none, fs)
    | some h ↦ elim (lookup h fs) [
      | some present ↦ (some (ref_of c body), fs)
      | none ↦
          if written
          then (
            some (ref_of c body),
            insert h (record { mod_time = now; packed = c.compress body }) fs,
          )
          else (none, fs)
    ]
  ]

  -- the check of what a file holds
  unfoldable pub checked_body : BlobRef → Option Bytes → GetResult
  unfolding ref_of
  checked_body ref none = broken
  checked_body ref (some body) = if ref_of c body == ref then got body else broken

  -- `Get`
  unfoldable pub get : BlobRef → Files → GetResult
  unfolding checked_body
  get ref fs = elim (hash_of ref) [
    | none ↦ broken
    | some h ↦ elim (lookup h fs) [
      | none ↦ not_found
      | some f ↦ checked_body ref (c.decompress f.packed)
    ]
  ]

-- `Has`, `none` for a malformed ref
unfoldable pub has_blob : BlobRef → Files → Option Bool
has_blob ref fs = elim (hash_of ref) [ none ↦ none | some h ↦ some (is_some (lookup h fs)) ]

-- `Delete`: whether it succeeded, where `removes` tells which files can be removed; an absent file counts
unfoldable pub delete : (String → Bool) → BlobRef → Files → Bool × Files
delete removes ref fs = elim (hash_of ref) [
  | none ↦ (false, fs)
  | some h ↦
      if is_some (lookup h fs)
      then (if removes h then (true, erase h fs) else (false, fs))
      else (true, fs)
]

-- `ListBlobs`
unfoldable pub list_blobs : Files → List BlobInfo
list_blobs [] = []
list_blobs ((h, f) ∷ fs) = record { ref = cat "sha256:" h; time = f.mod_time } ∷ list_blobs fs
