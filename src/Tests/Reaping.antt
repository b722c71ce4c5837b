-- ===== src/Tests/Reaping.antt =====
-- Runs of the upkeep of the artifact store of catlabel/services/artifacts.py at concrete inputs.
use Prim.Native.String.{String}
use catlabel.Prelude.{
  ℕ, ◌≡◌, refl, List, [], ◌∷◌, true, false, ◌&&◌, not, Option, none, some, ok, arith, map, filter,
  length, if◌then◌else◌,
}
use catlabel.Services.Platform.{Platform}
use catlabel.Services.Json.{obj, end}
use catlabel.Services.Artifacts.{Fallible, ArtifactStore, ArtifactRecord, contains, strict_uuid}
use catlabel.Services.Artifacts.Reaping.{is_due, reap}
use catlabel.Services.Artifacts.Reaping.Rounds.{alone}
use catlabel.Services.Artifacts.Reaping.Sweep.{IsSwept, reap_sweeps}
use catlabel.Services.Artifacts.Reaping.Pins.{IsHeld, reap-IsHeld}
use catlabel.Services.Artifacts.Startup.{
  temp_file, blob_file, DirectoryEntry, names_blob, new_artifact_store,
}
use catlabel.Services.Artifacts.Startup.Orphans.{files, startup_orphans}

abbrev plain : Platform
plain = record {
  sha256 = λ content. "digest";
  uuid_text = λ text. some text;
  dumps = λ value. some "{}";
  loads = λ text. some (obj end);
  utf8 = λ text. [];
}

abbrev artifact : String → ℕ → ArtifactRecord
artifact id expires_at = record {
  id = id;
  sha256 = "digest";
  mime_type = "image/png";
  kind = "source";
  size_bytes = 1;
  created_at = 0;
  expires_at = expires_at;
}

-- One expired, one expired but pinned, one whose pin has expired too, and one that has not expired.
abbrev store : ArtifactStore
store = record {
  records = artifact "a" 10 ∷ artifact "b" 5 ∷ artifact "c" 7 ∷ artifact "d" 90 ∷ [];
  pins =
      record { owner = "plan"; artifact_id = "b"; expires_at = none }
      ∷ record { owner = "old"; artifact_id = "c"; expires_at = some 9 }
      ∷ [];
  blobs = λ id. some (1 ∷ []);
  quota_bytes = 100;
  closed = false;
}

due_ones : map (λ r. r.id) (filter (is_due 10 store.pins) store.records) ≡ "a" ∷ "c" ∷ []
unfolding is_due
due_ones = refl

reap_sweeps_example :
    (after : ArtifactStore) × (reap plain alone (λ id. true) 10 4 store
      ≡ some (ok (length (filter (is_due 10 store.pins) store.records)), after))
    × IsSwept (λ id. true) 10 store after
unfolding strict_uuid
reap_sweeps_example =
    reap_sweeps plain (λ id. true) 10 4 store refl (refl, (refl, (refl, (refl, tt)))) (omega arith)

abbrev after_reap : Option (Fallible ℕ × ArtifactStore) → ArtifactStore
after_reap none = store
after_reap (some (answer, after)) = after

abbrev answer_of : Option (Fallible ℕ × ArtifactStore) → Fallible ℕ
answer_of none = ok 0
answer_of (some (answer, after)) = answer

b-IsHeld : IsHeld 10 "b" (some (1 ∷ [])) store
unfolding contains
b-IsHeld = record { recorded = refl; pinned = refl; filed = refl }

b_ends :
    reap plain alone (λ id. true) 10 4 store
    ≡ some (
      answer_of (reap plain alone (λ id. true) 10 4 store),
      after_reap (reap plain alone (λ id. true) 10 4 store),
    )
unfolding reap contains
b_ends = refl

reap-IsHeld_example :
    IsHeld 10 "b" (some (1 ∷ [])) (after_reap (reap plain alone (λ id. true) 10 4 store))
reap-IsHeld_example =
    reap-IsHeld plain alone (λ id. true) 10 4 "b" (some (1 ∷ [])) store
      (answer_of (reap plain alone (λ id. true) 10 4 store))
      (after_reap (reap plain alone (λ id. true) 10 4 store)) (λ k t h. h) b-IsHeld b_ends

abbrev entries : List DirectoryEntry
entries =
    record { name = blob_file "a"; is_file = true }
    ∷ record { name = temp_file "x"; is_file = true }
    ∷ record { name = blob_file "lost"; is_file = true }
    ∷ []

startup_orphans_example :
    (s : ArtifactStore) × (new_artifact_store 100 true
        (some entries)
        (λ name. true)
        store.records
        store.pins
        store.blobs
      ≡ ok s)
    × (s.records ≡ store.records)
    × (s.pins ≡ store.pins)
    × ((id : String)
        → s.blobs id ≡ (
            if (names_blob id (files entries) && not (contains id (map (λ r. r.id) store.records)))
              && true
            then none
            else store.blobs id))
startup_orphans_example =
    startup_orphans 100 entries (λ name. true) store.records store.pins store.blobs (omega arith)
      (omega arith)
