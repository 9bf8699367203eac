-- ===== src/Snapshot/Files.antt =====
-- src/snapshot.cpp: the plain snapshot as a file. The system answers whether the file can be opened, which
-- empties it, and behind how many bytes the writing fails, if it does.
use shadow_se.Base.{
  ℕ, ◌<◌, ◌≤◌, ◌≡◌, ◌≢◌, refl, Bool, true, false, Option, none, some, List, All, if◌then◌else◌,
  length, map, take, Bytes, same_bytes, same_bytes_iff, ap, ◌∙◌,
}
use shadow_se.Document.{Document}
use shadow_se.Snapshot.{
  Failure, Result, ok, err, max_count, serialize_documents, deserialize_documents,
}
use shadow_se.Snapshot.RoundTrip.{Fits, stored, deserialize-serialize}
use shadow_se.Snapshot.Truncation.{deserialize-take}

-- The contents of the files, by their paths.
abbrev pub Disk : Type 0
Disk = Bytes → Option Bytes

pub data FileFailure : Type 0 where
  cannot_open cannot_write cannot_read : FileFailure
  bad_format : Failure → FileFailure

pub data Loaded : Type 0 where
  documents : List Document → Loaded
  not_loaded : FileFailure → Loaded

unfoldable pub write_file : Bytes → Bytes → Disk → Disk
write_file path contents disk p = if same_bytes p path then some contents else disk p

unfoldable pub save_snapshot :
    Bool → Option ℕ → Bytes → List Document → Disk → Option FileFailure × Disk
unfolding write_file
save_snapshot false stops path docs disk = (some cannot_open, disk)
save_snapshot true none path docs disk = (none, write_file path (serialize_documents docs) disk)
save_snapshot true (some n) path docs disk =
    (some cannot_write, write_file path (take n (serialize_documents docs)) disk)

unfoldable pub loaded_from : Result (List Document) → Loaded
loaded_from (ok docs) = documents docs
loaded_from (err f) = not_loaded (bad_format f)

unfoldable pub load_data : Option Bytes → Loaded
unfolding loaded_from
load_data none = not_loaded cannot_read
load_data (some contents) = loaded_from (deserialize_documents contents)

unfoldable pub load_snapshot : Bytes → Disk → Loaded
unfolding load_data
load_snapshot path disk = load_data (disk path)

write_file-same :
    (path contents : Bytes) (disk : Disk) → write_file path contents disk path ≡ some contents
unfolding write_file
write_file-same path contents disk = rw ((same_bytes_iff path path).1 refl) refl

write_file-other :
    (path contents : Bytes) (disk : Disk) (p : Bytes)
    → same_bytes p path ≡ false
    → write_file path contents disk p ≡ disk p
unfolding write_file
write_file-other path contents disk p h = rw h refl

loaded_from_ok :
    (r : Result (List Document)) (docs : List Document)
    → loaded_from r ≡ documents docs
    → r ≡ ok docs
unfolding loaded_from
loaded_from_ok (ok found) docs h = cc (h)
loaded_from_ok (err f) docs h = absurd (cc (h))

-- The writing fails, if at all, before the last byte.
abbrev pub IsEarly : Option ℕ → List Document → Type 0
IsEarly none docs = Unit
IsEarly (some n) docs = n < length (serialize_documents docs)

-- What a save leaves: its documents where it succeeds, nothing that could be loaded where it stops early, and
-- the old files where the file cannot be opened.
abbrev pub IsSaved : Bool → Option ℕ → Bytes → List Document → Disk → List Document → Type 0
IsSaved false stops path docs disk found = (save_snapshot false stops path docs disk).1 ≡ disk
IsSaved true none path docs disk found =
    ((save_snapshot true none path docs disk).0 ≡ none)
    × (load_snapshot path (save_snapshot true none path docs disk).1 ≡ documents (map stored docs))
IsSaved true (some n) path docs disk found =
    load_snapshot path (save_snapshot true (some n) path docs disk).1 ≢ documents found

pub save_snapshot-IsSaved :
    (opens : Bool) (stops : Option ℕ) (path : Bytes) (docs : List Document) (disk : Disk)
    (found : List Document)
    → All Fits docs
    → length docs ≤ max_count
    → IsEarly stops docs
    → IsSaved opens stops path docs disk found
unfolding save_snapshot load_snapshot load_data
save_snapshot-IsSaved false stops path docs disk found fits few early = refl
save_snapshot-IsSaved true none path docs disk found fits few early = (
  refl,
  ap load_data (write_file-same path (serialize_documents docs) disk)
      ∙ ap loaded_from (deserialize-serialize docs fits few)
      ∙ unfold loaded_from in refl,
)
save_snapshot-IsSaved true (some n) path docs disk found fits few early = λ e.
    let contents = take n (serialize_documents docs) in
    let read = ap load_data (write_file-same path contents disk) in
    deserialize-take docs n found fits few early
      (loaded_from_ok (deserialize_documents contents) found (cc (read, e)))

save_snapshot-other :
    (opens : Bool) (stops : Option ℕ) (path : Bytes) (docs : List Document) (disk : Disk)
    (p : Bytes)
    → same_bytes p path ≡ false
    → (save_snapshot opens stops path docs disk).1 p ≡ disk p
unfolding save_snapshot
save_snapshot-other false stops path docs disk p h = refl
save_snapshot-other true none path docs disk p h = write_file-other path _ disk p h
save_snapshot-other true (some n) path docs disk p h = write_file-other path _ disk p h

-- Documents that fit, at most ten million, are saved to a file: with no error they load back from it, but for
-- the ids; if the writing stops before the last byte, no documents load from it; if it cannot be opened,
-- nothing changes; and no other file changes in any case.
pub load_snapshot-save_snapshot :
    (opens : Bool) (stops : Option ℕ) (path : Bytes) (docs : List Document) (disk : Disk)
    (found : List Document) (p : Bytes)
    → All Fits docs
    → length docs ≤ max_count
    → IsEarly stops docs
    → same_bytes p path ≡ false
    → IsSaved opens stops path docs disk found
      × ((save_snapshot opens stops path docs disk).1 p ≡ disk p)
load_snapshot-save_snapshot opens stops path docs disk found p fits few early other = (
  save_snapshot-IsSaved opens stops path docs disk found fits few early,
  save_snapshot-other opens stops path docs disk p other,
)
