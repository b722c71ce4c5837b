-- ===== src/Services/Artifacts.antt =====
-- catlabel/services/artifacts.py: `ArtifactStore`, its two tables, the pins and the blobs below its
-- root. A blob is reached by its identifier alone. The clock, a fresh identifier and whether the
-- file system and the database take a write are arguments.
pub mod Storage
pub mod Reaping
pub mod Startup
use Prim.Native.String.{String}
use text.Mathlib.Text.{◌==◌ as str_eq}
use catlabel.Prelude.{
  ℕ, ◌+◌, Bytes, Bool, true, false, Option, none, some, List, [], ◌∷◌, ◌++◌, ◌&&◌, ◌||◌, not,
  length, leb, ltb, ◌==◌, if◌then◌else◌, Result, ok, err, ◌>>=◌, ◌>>◌, raise_if, map,
}
use catlabel.Services.Platform.{Platform}
use catlabel.Services.Text.{char_count}

pub record ArtifactError : Type 0 where
  pub code : String
  pub message : String
  pub retryable : Bool

abbrev pub artifact_error : String → String → ArtifactError
artifact_error code message = record { code = code; message = message; retryable = false }

pub record ArtifactRecord : Type 0 where
  pub id : String
  pub sha256 : String
  pub mime_type : String
  pub kind : String
  pub size_bytes : ℕ
  pub created_at : ℕ
  pub expires_at : ℕ

pub record ArtifactPin : Type 0 where
  pub owner : String
  pub artifact_id : String
  pub expires_at : Option ℕ

pub record ArtifactStore : Type 0 where
  pub records : List ArtifactRecord
  pub pins : List ArtifactPin
  pub blobs : String → Option Bytes
  pub quota_bytes : ℕ
  pub closed : Bool

abbrev pub Fallible : Type 0 → Type 0
Fallible A = Result ArtifactError A

-- `x in xs`
unfoldable pub contains : String → List String → Bool
contains x [] = false
contains x (y ∷ ys) = str_eq y x || contains x ys

-- `list(dict.fromkeys(xs))`: each member once, where it stands first.
unfoldable pub distinct_from : List String → List String → List String
unfolding contains
distinct_from seen [] = []
distinct_from seen (x ∷ xs) =
    let old = distinct_from seen xs in
    let fresh = x ∷ distinct_from (x ∷ seen) xs in if contains x seen then old else fresh

-- `session.get(ArtifactRecord, id)`
unfoldable pub find_record : String → List ArtifactRecord → Option ArtifactRecord
find_record id [] = none
find_record id (r ∷ rs) = if str_eq r.id id then some r else find_record id rs

abbrev pub all_found : List ArtifactRecord → List String → Bool
all_found records [] = true
all_found records (id ∷ ids) = elim (find_record id records) [
  | none ↦ false
  | some r ↦ all_found records ids
]

-- `delete(ArtifactPin).where(owner == owner)`
unfoldable pub without_owner : String → List ArtifactPin → List ArtifactPin
without_owner owner [] = []
without_owner owner (p ∷ pins) =
    let rest = without_owner owner pins in if str_eq p.owner owner then rest else p ∷ rest

unfoldable pub validate_owner : String → Fallible (Unit {0})
validate_owner owner =
    raise_if (not (leb 1 (char_count owner) && leb (char_count owner) 512))
      (artifact_error "invalid_artifact_owner" "Artifact owner is invalid.")

unfoldable pub ensure_open : ArtifactStore → Fallible (Unit {0})
ensure_open s =
    raise_if s.closed (artifact_error "artifact_store_closed" "Artifact store is closed.")

-- `_unpin_in_session`: inside the caller's transaction, on the table of pins.
unfoldable pub unpin_in_session : String → List ArtifactPin → Fallible (List ArtifactPin)
unfolding validate_owner without_owner
unpin_in_session owner pins = do validate_owner owner; ok (without_owner owner pins)

module _ (platform : Platform) where
  unfoldable pub strict_uuid : String → Fallible String
  strict_uuid value = elim (platform.uuid_text value) [
    | none ↦ err (artifact_error "invalid_artifact_id" "Artifact ID is invalid.")
    | some normalized ↦
        if str_eq normalized value
        then ok normalized
        else err (artifact_error "invalid_artifact_id" "Artifact ID is invalid.")
  ]

  unfoldable pub strict_uuids : List String → Fallible (List String)
  unfolding strict_uuid
  strict_uuids [] = ok []
  strict_uuids (id ∷ ids) = do
    normalized ← strict_uuid id
    rest ← strict_uuids ids
    ok (normalized ∷ rest)

  -- `_pin_in_session`: the owner's pins are replaced, inside the caller's transaction.
  unfoldable pub pin_in_session :
      List ArtifactRecord
      → String
      → List String
      → Option ℕ
      → List ArtifactPin
      → Fallible (List ArtifactPin)
  unfolding validate_owner strict_uuids distinct_from without_owner
  pin_in_session records owner artifact_ids expires_at pins = do
    validate_owner owner
    strict ← strict_uuids artifact_ids
    let normalized = distinct_from [] strict
    raise_if (not (all_found records normalized))
        (artifact_error "artifact_not_found" "Artifact was not found.")
    ok (
        without_owner owner pins
        ++ map (λ id. record { owner = owner; artifact_id = id; expires_at = expires_at })
            normalized)

  unfoldable pub pin : String → List String → Option ℕ → ArtifactStore → Fallible ArtifactStore
  unfolding ensure_open pin_in_session
  pin owner artifact_ids expires_at s = do
    ensure_open s
    pins ← pin_in_session s.records owner artifact_ids expires_at s.pins
    ok (record s { pins = pins })

  unfoldable pub unpin : String → ArtifactStore → Fallible ArtifactStore
  unfolding ensure_open unpin_in_session
  unpin owner s = do
    ensure_open s
    pins ← unpin_in_session owner s.pins
    ok (record s { pins = pins })

  unfoldable pub load_record : ArtifactStore → String → Fallible ArtifactRecord
  unfolding ensure_open strict_uuid find_record
  load_record s artifact_id = do
    ensure_open s
    normalized ← strict_uuid artifact_id
    elim (find_record normalized s.records) [
      | none ↦ err (artifact_error "artifact_not_found" "Artifact was not found.")
      | some r ↦ ok r
    ]

  -- The test that `read_bytes` and `_verify_file` make on the content of the file.
  abbrev pub matches : ArtifactRecord → Bytes → Bool
  matches r content = length content == r.size_bytes && str_eq (platform.sha256 content) r.sha256

  unfoldable pub verified : ArtifactStore → ArtifactRecord → Fallible Bytes
  verified s r = elim (s.blobs r.id) [
    | none ↦ err (artifact_error "artifact_missing" "Artifact content is unavailable.")
    | some content ↦
        if matches r content
        then ok content
        else err (
            artifact_error "artifact_hash_mismatch"
              "Artifact content failed integrity verification.")
  ]

  unfoldable pub read_bytes : ArtifactStore → String → Fallible Bytes
  unfolding load_record verified
  read_bytes s artifact_id = do r ← load_record s artifact_id; verified s r

  -- The metadata of `get` is the record itself, with a link made from the identifier.
  unfoldable pub get : ArtifactStore → String → Fallible ArtifactRecord
  unfolding load_record verified
  get s artifact_id = do r ← load_record s artifact_id; content ← verified s r; ok r

  abbrev pub used_bytes : List ArtifactRecord → ℕ
  used_bytes [] = 0
  used_bytes (r ∷ rs) = r.size_bytes + used_bytes rs

  -- `put_bytes`, with the identifier that `uuid4` drew. The file may be in place when the sync of its
  -- directory fails, and a commit that raises may have taken effect; the file stays then either way.
  unfoldable pub put_bytes :
      (content : Bytes) (mime_type kind : String) (ttl_seconds now : ℕ) (fresh : String)
      (written synced committed landed : Bool)
      → ArtifactStore
      → Fallible ArtifactRecord × ArtifactStore
  put_bytes content mime_type kind ttl_seconds now fresh written synced committed landed s =
      let r : ArtifactRecord = record {
        id = fresh;
        sha256 = platform.sha256 content;
        mime_type = mime_type;
        kind = kind;
        size_bytes = length content;
        created_at = now;
        expires_at = now + ttl_seconds;
      } in
      let filed = record s { blobs = λ id. if str_eq id fresh then some content else s.blobs id } in
      if s.closed
      then (err (artifact_error "artifact_store_closed" "Artifact store is closed."), s)
      else if char_count mime_type == 0 || ltb 255 (char_count mime_type)
      then (err (artifact_error "invalid_artifact" "MIME type is invalid."), s)
      else if char_count kind == 0 || ltb 128 (char_count kind)
      then (err (artifact_error "invalid_artifact" "Artifact kind is invalid."), s)
      else if ltb s.quota_bytes (used_bytes s.records + length content)
      then (
        err (
            artifact_error "artifact_quota_exceeded"
              "Managed artifact storage quota would be exceeded."),
        s,
      )
      else if not (written && synced)
      then (
        err (record {
          code = "artifact_write_failed";
          message = "Artifact content could not be stored.";
          retryable = true;
        }),
        if written then filed else s,
      )
      else if not committed
      then (
        err (artifact_error "database_error" ""),
        if landed then record filed { records = s.records ++ r ∷ [] } else filed,
      )
      else (ok r, record filed { records = s.records ++ r ∷ [] })
