-- ===== src/Services/Artifacts/Startup.antt =====
-- `__init__`, `_cleanup_startup_orphans` and `close` of catlabel/services/artifacts.py.
-- The name of a file in the directory is what the two regular expressions make of it; `none` stands
-- for a directory that cannot be scanned.
pub mod Orphans
use Prim.Native.String.{String}
use text.Mathlib.Text.{◌==◌ as str_eq}
use catlabel.Prelude.{
  ℕ, zero, suc, List, [], ◌∷◌, Bytes, Bool, true, false, ◌&&◌, ◌||◌, not, Option, none, some,
  if◌then◌else◌, map, leb, Result, ok, err, raise_if, ◌>>◌, ◌==◌,
}
use catlabel.Services.Artifacts.{ArtifactRecord, ArtifactPin, ArtifactStore, contains}

-- `_STARTUP_CLEANUP_LIMIT`
abbrev pub startup_cleanup_limit : ℕ
startup_cleanup_limit = 1000

pub data FileName : Type 0 where
  temp_file blob_file : String → FileName
  other_file : FileName

pub record DirectoryEntry : Type 0 where
  pub name : FileName
  pub is_file : Bool

-- The loop over the entries, with the room that is left for candidates.
unfoldable pub gather : ℕ → List DirectoryEntry → List FileName
gather zero entries = []
gather (suc room) [] = []
gather (suc room) (entry ∷ entries) =
    let more = gather room entries in
    let same = gather (suc room) entries in
    if entry.is_file
    then elim entry.name [
      | other_file ↦ same
      | temp_file id ↦ temp_file id ∷ more
      | blob_file id ↦ blob_file id ∷ more
    ]
    else same

-- The files that the last loop unlinks.
unfoldable pub orphans : List ArtifactRecord → List FileName → List FileName
unfolding contains
orphans records [] = []
orphans records (name ∷ names) =
    let rest = orphans records names in
    elim name [
      | temp_file id ↦ temp_file id ∷ rest
      | blob_file id ↦ if contains id (map (λ r. r.id) records) then rest else blob_file id ∷ rest
      | other_file ↦ rest
    ]

unfoldable pub cleanup_startup_orphans :
    Option (List DirectoryEntry) → List ArtifactRecord → List FileName
unfolding gather orphans
cleanup_startup_orphans none records = []
cleanup_startup_orphans (some entries) records =
    orphans records (gather startup_cleanup_limit entries)

-- Whether a blob is one of these files.
abbrev pub names_blob : String → List FileName → Bool
names_blob id [] = false
names_blob id (blob_file i ∷ names) = str_eq i id || names_blob id names
names_blob id (name ∷ names) = names_blob id names

pub data StartupError : Type 0 where
  invalid_quota not_a_directory : StartupError

-- `__init__`, over the rows and files that are there.
unfoldable pub new_artifact_store :
    (quota_bytes : ℕ) (is_dir : Bool) (scan : Option (List DirectoryEntry))
    (unlinked : FileName → Bool) (records : List ArtifactRecord) (pins : List ArtifactPin)
    (blobs : String → Option Bytes)
    → Result StartupError ArtifactStore
unfolding cleanup_startup_orphans
new_artifact_store quota_bytes is_dir scan unlinked records pins blobs =
    let removed = cleanup_startup_orphans scan records in
    raise_if (quota_bytes == 0) invalid_quota
    >> raise_if (not is_dir) not_a_directory
    >> ok (record {
      records = records;
      pins = pins;
      blobs = λ id. if names_blob id removed && unlinked (blob_file id) then none else blobs id;
      quota_bytes = quota_bytes;
      closed = false;
    })

unfoldable pub close : ArtifactStore → ArtifactStore
close s = record s { closed = true }
