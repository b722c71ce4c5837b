-- ===== src/Services/Artifacts/Startup/Orphans.antt =====
-- The cleanup at startup of catlabel/services/artifacts.py.
use Prim.Native.String.{String}
use text.Mathlib.Text.{◌==◌ as str_eq}
use text.Mathlib.TextEquality.{eq_iff}
use catlabel.Prelude.{
  ℕ, zero, suc, ◌≤◌, ◌≡◌, refl, ap, sym, ◌∙◌, List, [], ◌∷◌, Bytes, Bool, true, false, ◌&&◌, ◌||◌,
  not, Option, none, some, if◌then◌else◌, map, arith, Bool-cases, inl, inr, ok, ◌==◌, length,
  filter,
}
use catlabel.Services.Artifacts.{ArtifactRecord, ArtifactPin, ArtifactStore, contains}
use catlabel.Services.Artifacts.Startup.{
  startup_cleanup_limit, FileName, temp_file, blob_file, other_file, DirectoryEntry, gather,
  orphans, cleanup_startup_orphans, names_blob, new_artifact_store,
}

-- A blob is an orphan if its file was found and no record has its identifier.
names_blob-orphans :
    (id : String) (records : List ArtifactRecord) (names : List FileName)
    → names_blob id (orphans records names)
      ≡ (names_blob id names && not (contains id (map (λ r. r.id) records)))
unfolding orphans
names_blob-orphans id records [] = refl
names_blob-orphans id records (temp_file i ∷ names) = names_blob-orphans id records names
names_blob-orphans id records (other_file ∷ names) = names_blob-orphans id records names
names_blob-orphans id records (blob_file i ∷ names) =
    let known : List String = map (λ r. r.id) records in
    let same : str_eq i id ≡ true → contains i known ≡ contains id known =
      λ e. ap (λ t. contains t known) ((eq_iff i id).0 e) in
    let rest = names_blob-orphans id records names in
    elim (Bool-cases (contains i known)) [
      | inl found ↦ rw found (
          rest
          ∙ by_tests (str_eq i id) (names_blob id names) (contains id known)
              (λ e. sym (same e) ∙ found))
      | inr absent ↦
          rw (absent, rest)
            (not_known (str_eq i id) (names_blob id names) (contains id known)
              (λ e. sym (same e) ∙ absent))
    ]
  where
    by_tests :
        (same named known : Bool)
        → (same ≡ true → known ≡ true)
        → (named && not known) ≡ ((same || named) && not known)
    by_tests same named known h = ground arith

    not_known :
        (same named known : Bool)
        → (same ≡ true → known ≡ false)
        → (same || (named && not known)) ≡ ((same || named) && not known)
    not_known same named known h = ground arith

-- The files of the directory.
abbrev pub files : List DirectoryEntry → List FileName
files entries = map (λ entry. entry.name) (filter (λ entry. entry.is_file) entries)

names_blob-gather :
    (id : String) (room : ℕ) (entries : List DirectoryEntry)
    → length entries ≤ room
    → names_blob id (gather room entries) ≡ names_blob id (files entries)
unfolding gather
names_blob-gather id zero [] h = refl
names_blob-gather id zero (entry ∷ entries) h = absurd (omega arith)
names_blob-gather id (suc room) [] h = refl
names_blob-gather id (suc room) (entry ∷ entries) h =
    by_entry entry.name entry.is_file (names_blob-gather id room entries (omega arith))
      (names_blob-gather id (suc room) entries (omega arith))
  where
    by_entry :
        (name : FileName) (is_file : Bool)
        → names_blob id (gather room entries) ≡ names_blob id (files entries)
        → names_blob id (gather (suc room) entries) ≡ names_blob id (files entries)
        → names_blob id (
            if is_file
            then elim name [
              | other_file ↦ gather (suc room) entries
              | temp_file i ↦ temp_file i ∷ gather room entries
              | blob_file i ↦ blob_file i ∷ gather room entries
            ]
            else gather (suc room) entries)
          ≡ names_blob id (
              map
                (λ e. e.name)
                (if is_file
                  then record { name = name; is_file = is_file } ∷ filter (λ e. e.is_file) entries
                  else filter (λ e. e.is_file) entries))
    by_entry name false more same = same
    by_entry other_file true more same = same
    by_entry (temp_file i) true more same = more
    by_entry (blob_file i) true more same = ap (λ b. str_eq i id || b) more

names_blob-cleanup :
    (id : String) (entries : List DirectoryEntry) (records : List ArtifactRecord)
    → length entries ≤ startup_cleanup_limit
    → names_blob id (cleanup_startup_orphans (some entries) records)
      ≡ (names_blob id (files entries) && not (contains id (map (λ r. r.id) records)))
unfolding cleanup_startup_orphans
names_blob-cleanup id entries records few =
    names_blob-orphans id records (gather startup_cleanup_limit entries)
    ∙ ap (λ b. b && not (contains id (map (λ r. r.id) records)))
        (names_blob-gather id startup_cleanup_limit entries few)

-- A store that starts with at most 1000 entries in its directory removes just the blobs that no
-- record has, where the file system lets it; the rows and every other blob stay.
pub startup_orphans :
    (quota_bytes : ℕ) (entries : List DirectoryEntry) (unlinked : FileName → Bool)
    (records : List ArtifactRecord) (pins : List ArtifactPin) (blobs : String → Option Bytes)
    → 1 ≤ quota_bytes
    → length entries ≤ 1000
    → (s : ArtifactStore) × (new_artifact_store quota_bytes true
          (some entries)
          unlinked
          records
          pins
          blobs
        ≡ ok s)
      × (s.records ≡ records)
      × (s.pins ≡ pins)
      × ((id : String)
          → s.blobs id ≡ (
              if (names_blob id (files entries) && not (contains id (map (λ r. r.id) records)))
                && unlinked (blob_file id)
              then none
              else blobs id))
unfolding new_artifact_store
startup_orphans quota_bytes entries unlinked records pins blobs some_quota few =
    let removed = cleanup_startup_orphans (some entries) records in
    let positive : (quota_bytes == 0) ≡ false = ground arith in
    (
      record {
        records = records;
        pins = pins;
        blobs = λ id. if names_blob id removed && unlinked (blob_file id) then none else blobs id;
        quota_bytes = quota_bytes;
        closed = false;
      },
      rw (positive, new_artifact_store) refl,
      refl,
      refl,
      λ id.
          ap (λ b. if b && unlinked (blob_file id) then none else blobs id)
            (names_blob-cleanup id entries records few),
    )
