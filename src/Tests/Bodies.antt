-- ===== src/Tests/Bodies.antt =====
-- The store of bodies, its collection, and an account over a file, at small inputs.
use vulos_mail.Common.{
  ℕ, ◌≡◌, ◌≢◌, refl, inl, String, List, [], ◌∷◌, true, false, elem, All, Option, none, some, arith,
  eq_iff,
}
use vulos_mail.Common.Map.{lookup, insert}
use vulos_mail.Common.Map.Keys.{Once}
use vulos_mail.Common.Text.{cat}
use vulos_mail.EventLog.Mem.{mem_log}
use vulos_mail.Model.{Message}
use vulos_mail.Projection
use vulos_mail.Projection.Snapshot.Same.{Same}
use vulos_mail.Event.Utf8.{to_valid}
use vulos_mail.Event.Size.{json_size}
use vulos_mail.Event.Codec.{encode, is_dated, valid_event}
use vulos_mail.EventLog.File
use vulos_mail.EventLog.File.{snap_failed, line_of, line_size, save_snapshot}
use vulos_mail.EventLog.File.Recovery.{IsPlain}
use vulos_mail.Account.{Runtime, create_label, expunge, step, commit}
use vulos_mail.Account.Compact.{
  disk_log, Call, called, compacted, run_calls, reopen, append_by, next_ok, other_oks,
}
use vulos_mail.Account.Compact.Reopen.{new_file, reopen-run_calls}
use vulos_mail.Storage.Blob.{
  Codecs, Files, got, ref_of, hash_of, after_prefix, all_hex, len_of, put, get,
}
use vulos_mail.Storage.Blob.Readback.{
  IsLawful, Use, stored, deleted, run_uses, Spares, get-run_uses,
}
use mathlib.Core.List.{Memᴰ}
use vulos_mail.Server.Gc.{DirEntry, safe_name, open_dirs, reopened, gc_blobs}
use vulos_mail.Server.Gc.Kept.{Wanted, lookup-gc_blobs, gc_blobs-unread}
use vulos_mail.Tests.Logs.{created_wire}
use vulos_mail.Tests.Accounts.{mail, services, opened}

-- 64 characters
abbrev digest_a : String
digest_a = "aaaaaaaaaaaaaaaaaaaaaaaaaaaaaaaaaaaaaaaaaaaaaaaaaaaaaaaaaaaaaaaa"

abbrev digest_b : String
digest_b = "bbbbbbbbbbbbbbbbbbbbbbbbbbbbbbbbbbbbbbbbbbbbbbbbbbbbbbbbbbbbbbbb"

-- one digest for the empty body and one for the others
abbrev by_length : List ℕ → String
by_length [] = digest_a
by_length (x ∷ xs) = digest_b

abbrev codecs : Codecs
codecs = record {
  sum = by_length;
  compress = λ b. 40 ∷ b;
  decompress = λ b. elim b [ [] ↦ none | x ∷ xs ↦ some xs ];
}

by_length_hex : (body : List ℕ) → hash_of (ref_of codecs body) ≡ some (by_length body)
unfolding hash_of ref_of after_prefix all_hex len_of cat
by_length_hex [] = refl
by_length_hex (x ∷ xs) = refl

codecs-IsLawful : IsLawful codecs
codecs-IsLawful = record { sum_hex = by_length_hex; unpacks = λ body. refl }

only_empty : (other : List ℕ) → by_length other ≡ by_length [] → other ≡ []
only_empty [] e = refl
only_empty (x ∷ xs) e = ground (arith, e, eq_iff digest_b digest_a)

abbrev earlier : List Use
earlier = stored 3 false [] ∷ stored 4 true (7 ∷ []) ∷ []

abbrev later : List Use
later = stored 9 true [] ∷ deleted true (cat "sha256:" digest_b) ∷ []

answers : (o : Option String) (a : String) → o ≡ some a → o ≢ none
answers o a e n = cc

stored_now : (put codecs 5 true [] (run_uses codecs earlier [])).0 ≡ some (ref_of codecs [])
unfolding put run_uses hash_of ref_of after_prefix all_hex len_of cat lookup insert
stored_now = refl

is_answered : (put codecs 5 true [] (run_uses codecs earlier [])).0 ≢ none
is_answered =
    answers (put codecs 5 true [] (run_uses codecs earlier [])).0 (ref_of codecs []) stored_now

is_spared : Spares codecs (ref_of codecs []) later
unfolding hash_of ref_of after_prefix all_hex len_of cat
is_spared = (λ e. ground (arith, e, eq_iff digest_b digest_a), tt)

get-run_uses_example :
    get codecs
      (ref_of codecs [])
      (run_uses codecs later (put codecs 5 true [] (run_uses codecs earlier [])).1)
    ≡ got []
get-run_uses_example =
    get-run_uses codecs codecs-IsLawful earlier later 5 true [] is_answered is_spared only_empty

abbrev kept_letter : Message
kept_letter = record {
  id = "m1";
  blob_ref = cat "sha256:" digest_a;
  envelope = mail "<a@x.org>";
  size = 3;
  thread_id = "t";
  labels = [];
  flags = [];
}

abbrev with_letter : Runtime mem_log services
with_letter = record opened { proj = record (opened.proj) { messages = ("m1", kept_letter) ∷ [] } }

abbrev files : Files
files =
    (digest_a, record { mod_time = 1; packed = [] })
    ∷ (digest_b, record { mod_time = 1; packed = [] })
    ∷ []

files-Once : Once files
unfolding lookup
files-Once = (refl, (refl, tt))

is_Wanted : Wanted mem_log services none [] 0 (("ann@x.org", with_letter) ∷ []) [] 5 files digest_a
unfolding lookup hash_of after_prefix all_hex len_of cat
is_Wanted = inl (with_letter, (inl ("ann@x.org", refl), ("m1", (kept_letter, (refl, refl)))))

lookup-gc_blobs_example :
    lookup digest_a
      (gc_blobs mem_log services none [] 0
        (λ h. true)
        (("ann@x.org", with_letter) ∷ [])
        (some [])
        5
        files).1
    ≡ lookup digest_a files
lookup-gc_blobs_example =
    lookup-gc_blobs mem_log services none [] 0 (("ann@x.org", with_letter) ∷ []) [] (λ h. true) 5
      files digest_a files-Once is_Wanted

abbrev unreadable_dir : DirEntry mem_log
unreadable_dir = record { name = "bob_at_x.org"; is_dir = true; opened = none }

gc_blobs-unread_example :
    gc_blobs mem_log services none [] 0
      (λ h. true)
      (("ann@x.org", with_letter) ∷ [])
      (some (unreadable_dir ∷ []))
      5
      files
    ≡ (none, files)
unfolding elem
gc_blobs-unread_example =
    gc_blobs-unread mem_log services none [] 0 (("ann@x.org", with_letter) ∷ [])
      (unreadable_dir ∷ []) (λ h. true) 5 files unreadable_dir (Memᴰ.head refl)
      (unfold open_dirs safe_name cat in refl) (unfold reopened in refl)

abbrev on_disk : Runtime disk_log services
on_disk = record {
  log = (new_file, true ∷ false ∷ [], []);
  store = [];
  ids = 0;
  threader = [];
  proj = Projection.new;
  notified = [];
}

abbrev disk_calls : List Call
disk_calls =
    called 5 (create_label "l" "Work" "user") ∷ compacted snap_failed ∷ called 2 (expunge "m1") ∷ []

on_disk-IsPlain : All IsPlain (run_calls services disk_calls on_disk).log.2
unfolding run_calls step commit File.append append_by next_ok other_oks line_of encode is_dated
    to_valid valid_event line_size json_size save_snapshot
on_disk-IsPlain = (record { wire = created_wire; written = refl; valid = refl; short = refl }, tt)

reopen-run_calls_example :
    (b : Projection.Account) × (reopen (run_calls services disk_calls on_disk).log.0
      ≡ some ((run_calls services disk_calls on_disk).log.0, b))
    × Same b (run_calls services disk_calls on_disk).proj
reopen-run_calls_example =
    reopen-run_calls services on_disk disk_calls refl refl (omega arith) on_disk-IsPlain
