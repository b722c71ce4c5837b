-- ===== src/Services/Artifacts/Storage.antt =====
-- `put_bytes` and `read_bytes` of catlabel/services/artifacts.py together, and the quota.
use Prim.Native.String.{String}
use text.Mathlib.Text.{◌==◌ as str_eq}
use text.Mathlib.TextPositions.{eq_refl}
use catlabel.Prelude.{
  ℕ, ◌≡◌, ◌≤◌, ◌+◌, refl, Bytes, Bool, true, false, none, some, List, [], ◌∷◌, ◌++◌, length, ok,
  Bool-cases, inl, inr, arith, if◌then◌else◌,
}
use catlabel.Services.Platform.{Platform}
use catlabel.Services.Artifacts.{
  ArtifactRecord, ArtifactStore, find_record, used_bytes, put_bytes, read_bytes, load_record,
  verified, strict_uuid, ensure_open,
}

find_record-append :
    (id : String) (records : List ArtifactRecord) (r : ArtifactRecord)
    → find_record id records ≡ none
    → str_eq r.id id ≡ true
    → find_record id (records ++ r ∷ []) ≡ some r
unfolding find_record
find_record-append id [] r h e = rw e
find_record-append id (x ∷ records) r h e = elim (Bool-cases (str_eq x.id id)) [
  | inl f ↦ cc (rw f at h)
  | inr f ↦ rw f (find_record-append id records r (rw f at h) e)
]

pub ensure_open-open : (s : ArtifactStore) → s.closed ≡ false → ensure_open s ≡ ok tt
unfolding ensure_open
ensure_open-open s h = rw (ensure_open, h) refl

module _ (platform : Platform) where
  used_bytes-append :
      (records : List ArtifactRecord) (r : ArtifactRecord)
      → used_bytes platform (records ++ r ∷ []) ≡ used_bytes platform records + r.size_bytes
  used_bytes-append [] r = omega arith
  used_bytes-append (x ∷ records) r = omega (arith, used_bytes-append records r)

  -- The record and the store of a `put_bytes` that succeeds.
  abbrev pub stored : Bytes → String → String → ℕ → ℕ → String → ArtifactRecord
  stored content mime_type kind ttl_seconds now fresh = record {
    id = fresh;
    sha256 = platform.sha256 content;
    mime_type = mime_type;
    kind = kind;
    size_bytes = length content;
    created_at = now;
    expires_at = now + ttl_seconds;
  }

  abbrev pub filed : Bytes → ArtifactRecord → ArtifactStore → ArtifactStore
  filed content r s = record s {
    records = s.records ++ r ∷ [];
    blobs = λ id. if str_eq id r.id then some content else s.blobs id;
  }

  -- A write that succeeds found the store open, and has room for its content.
  put_bytes-filed :
      (content : Bytes) (mime_type kind : String) (ttl_seconds now : ℕ) (fresh : String)
      (written synced committed landed : Bool) (s : ArtifactStore) (r : ArtifactRecord)
      → (put_bytes platform content mime_type kind ttl_seconds now fresh written synced committed
          landed s).0
        ≡ ok r
      → (s.closed ≡ false)
        × (used_bytes platform s.records + length content ≤ s.quota_bytes)
        × ((put_bytes platform content mime_type kind ttl_seconds now fresh written synced committed
              landed s).1
            ≡ filed content (stored content mime_type kind ttl_seconds now fresh) s)
  unfolding put_bytes
  put_bytes-filed content mime_type kind ttl_seconds now fresh written synced committed landed s r
        e =
      ground arith

  strict_uuid-canonical :
      (id : String) → platform.uuid_text id ≡ some id → strict_uuid platform id ≡ ok id
  unfolding strict_uuid
  strict_uuid-canonical id h = rw (strict_uuid, h, eq_refl id) refl

  load_record-found :
      (s : ArtifactStore) (id : String) (r : ArtifactRecord)
      → s.closed ≡ false
      → platform.uuid_text id ≡ some id
      → find_record id s.records ≡ some r
      → load_record platform s id ≡ ok r
  unfolding load_record
  load_record-found s id r opened id_text found =
      rw (load_record, ensure_open-open s opened, strict_uuid-canonical id id_text)
        (ground (arith, found))

  filed_read :
      (content : Bytes) (r : ArtifactRecord) (s : ArtifactStore)
      → s.closed ≡ false
      → platform.uuid_text r.id ≡ some r.id
      → find_record r.id s.records ≡ none
      → r.size_bytes ≡ length content
      → r.sha256 ≡ platform.sha256 content
      → read_bytes platform (filed content r s) r.id ≡ ok content
  unfolding read_bytes verified
  filed_read content r s opened id_text unused size digest =
      let found =
        load_record-found (filed content r s) r.id r opened id_text
          (find_record-append r.id s.records r unused (eq_refl r.id)) in
      rw (read_bytes, found, verified, eq_refl r.id)
        (ground (arith, size, digest, eq_refl (platform.sha256 content)))

  -- What `put_bytes` stored, `read_bytes` returns, when the fresh identifier is a canonical UUID
  -- that no record has.
  pub read_bytes-put_bytes :
      (content : Bytes) (mime_type kind : String) (ttl_seconds now : ℕ) (fresh : String)
      (written synced committed landed : Bool) (s : ArtifactStore) (r : ArtifactRecord)
      → (put_bytes platform content mime_type kind ttl_seconds now fresh written synced committed
          landed s).0
        ≡ ok r
      → platform.uuid_text fresh ≡ some fresh
      → find_record fresh s.records ≡ none
      → read_bytes platform
          (put_bytes platform content mime_type kind ttl_seconds now fresh written synced committed
            landed s).1
          fresh
        ≡ ok content
  read_bytes-put_bytes content mime_type kind ttl_seconds now fresh written synced committed landed
        s r e id_text unused =
      let (opened, room, same) =
        put_bytes-filed content mime_type kind ttl_seconds now fresh written synced committed landed
          s r e in
      rw same (
        filed_read content (stored content mime_type kind ttl_seconds now fresh) s opened id_text
          unused refl refl)

  -- `put_bytes` never takes a store that is within its quota above it, whatever comes of it.
  pub put_bytes-quota :
      (content : Bytes) (mime_type kind : String) (ttl_seconds now : ℕ) (fresh : String)
      (written synced committed landed : Bool) (s : ArtifactStore)
      → used_bytes platform s.records ≤ s.quota_bytes
      → let after =
          (put_bytes platform content mime_type kind ttl_seconds now fresh written synced committed
            landed s).1 in
        used_bytes platform after.records ≤ after.quota_bytes
  unfolding put_bytes
  put_bytes-quota content mime_type kind ttl_seconds now fresh written synced committed landed s h =
      ground
        (arith, used_bytes-append s.records (stored content mime_type kind ttl_seconds now fresh))
