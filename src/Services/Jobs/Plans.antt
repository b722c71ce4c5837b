-- ===== src/Services/Jobs/Plans.antt =====
-- `create_plan` and `get_plan` of catlabel/services/print_jobs.py: a plan freezes its manifest, the
-- identity of its sources and its hash.
use Prim.Native.String.{String}
use text.Mathlib.Text.{◌==◌ as str_eq}
use catlabel.Prelude.{
  ℕ, ◌+◌, Bool, true, false, Option, none, some, List, [], ◌∷◌, ◌++◌, ◌&&◌, not, leb, ltb,
  if◌then◌else◌, ok, err, ◌>>=◌, ◌>>◌, raise_if, map,
}
use catlabel.Services.Json
use catlabel.Services.Json.{
  Json, Items, Fields, num, str, arr, obj, nil, cons, end, field, equals_text, equals_number,
}
use catlabel.Services.Platform.{Platform}
use catlabel.Services.Artifacts
use catlabel.Services.Artifacts.{ArtifactRecord, ArtifactStore, pin_in_session}
use catlabel.Services.Jobs.{
  Database, PrintPlanRecord, Fallible, job_error, busy_error, from_artifact_error, canonical_json,
  sha256_text, validate_uuid, validate_hash, plan_owner,
}
use catlabel.Services.Jobs.Table.{find_plan, with_pins}

-- `_plan_result`
pub record PlanResult : Type 0 where
  pub id : String
  pub plan_hash : String
  pub expires_at : ℕ
  pub manifest : Fields

abbrev pub plan_result : PrintPlanRecord → Fields → PlanResult
plan_result plan manifest = record {
  id = plan.id;
  plan_hash = plan.plan_hash;
  expires_at = plan.expires_at;
  manifest = manifest;
}

-- The `dict` that `create_plan` keeps of one source.
abbrev pub source_value : ArtifactRecord → Json
source_value r = obj (
    field "id" (str r.id) (
      field "sha256" (str r.sha256)
        (field "mime_type" (str r.mime_type) (field "size_bytes" (num r.size_bytes) end))))

abbrev pub source_items : List ArtifactRecord → Items
source_items [] = nil
source_items (r ∷ rs) = cons (source_value r) (source_items rs)

-- `any(metadata.get(field) != source.get(field) ...)` is false.
abbrev pub same_source : ArtifactRecord → Fields → Bool
same_source r source =
    equals_text (Json.get source "id") r.id
    && equals_text (Json.get source "sha256") r.sha256
    && equals_text (Json.get source "mime_type") r.mime_type
    && equals_number (Json.get source "size_bytes") r.size_bytes

abbrev pub raised : {A : Type 0} → Artifacts.Fallible A → Fallible A
raised (ok a) = ok a
raised (err e) = err (from_artifact_error e)

abbrev invalid_content : {A : Type 0} → String → Fallible A
invalid_content message = err (job_error "plan_content_invalid" message)

abbrev as_object : Option Json → Fallible Fields
as_object (some (obj fields)) = ok fields
as_object _ = invalid_content "Print plan content is invalid."

abbrev as_items : Option Json → Fallible Items
as_items (some (arr items)) = ok items
as_items _ = invalid_content "Plan source references are invalid."

abbrev source_fields : Json → Fallible Fields
source_fields (obj fields) = ok fields
source_fields _ = invalid_content "Plan source references are invalid."

abbrev source_id : Option Json → Fallible String
source_id (some (str id)) = ok id
source_id _ = invalid_content "Plan source references are invalid."

-- `expected_hash is not None` and the two tests on it.
abbrev well_formed_hash : Option String → Fallible (Unit {0})
well_formed_hash none = ok tt
well_formed_hash (some hash) = validate_hash hash "invalid_plan_hash"

abbrev expected_here : Option String → String → Fallible (Unit {0})
expected_here none plan_hash = ok tt
expected_here (some hash) plan_hash =
    raise_if (not (str_eq hash plan_hash))
      (job_error "plan_hash_mismatch" "Print plan hash does not match.")

module _ (platform : Platform) where
  unfoldable pub gather_sources : ArtifactStore → List String → Fallible (List ArtifactRecord)
  unfolding Artifacts.get from_artifact_error
  gather_sources s [] = ok []
  gather_sources s (id ∷ ids) = do
    metadata ← raised (Artifacts.get platform s id)
    rest ← gather_sources s ids
    ok (metadata ∷ rest)

  -- What `create_plan` writes: the plan's record, with its manifest.
  unfoldable pub draft_plan :
      Fields
      → List String
      → ℕ
      → ℕ
      → String
      → Database
      → Fallible (PrintPlanRecord × Fields × List String)
  unfolding canonical_json gather_sources sha256_text Json.get Json.put
  draft_plan manifest artifact_ids ttl_seconds now plan_id db = do
    raise_if (elim (Json.get manifest "source_artifacts") [ none ↦ false | some v ↦ true ])
        (job_error "invalid_plan" "source_artifacts is reserved for managed sources.")
    raise_if (ltb ttl_seconds 1) (job_error "invalid_plan" "Plan TTL must be a positive integer.")
    text ← canonical_json platform (obj manifest) "invalid_plan"
    copied ← (elim (platform.loads text) [
      | some (obj fields) ↦ ok fields
      | _ ↦ err (job_error "invalid_plan" "Plan manifest is invalid.")
    ])
    sources ← gather_sources db.store artifact_ids
    let frozen = Json.put copied "source_artifacts" (arr (source_items sources))
    manifest_json ← canonical_json platform (obj frozen) "invalid_plan"
    ok (
      record {
        id = plan_id;
        plan_hash = sha256_text platform manifest_json;
        manifest_json = manifest_json;
        created_at = now;
        expires_at = now + ttl_seconds;
      },
      frozen,
      map (λ r. r.id) sources,
    )

  -- `plan_id` is what `uuid4` drew; `busy` says that the database refuses the write.
  unfoldable pub create_plan :
      (manifest : Fields) (artifact_ids : List String) (ttl_seconds now : ℕ) (plan_id : String)
      (busy : Bool)
      → Database
      → Fallible PlanResult × Database
  unfolding draft_plan pin_in_session from_artifact_error
  create_plan manifest artifact_ids ttl_seconds now plan_id busy db =
      elim (draft_plan manifest artifact_ids ttl_seconds now plan_id db) [
        | err e ↦ (err e, db)
        | ok (plan, frozen, source_ids) ↦
            elim (pin_in_session platform db.store.records (plan_owner plan_id) source_ids none
              db.store.pins) [
                | err e ↦ (err (from_artifact_error e), db)
                | ok pins ↦
                    if busy then (err (busy_error "Plan storage is temporarily busy."), db) else (
                      ok (plan_result plan frozen),
                      record (with_pins pins db) { plans = db.plans ++ plan ∷ [] },
                    )
              ]
      ]

  -- The verification of the sources. The source reads an identifier's metadata once and keeps it;
  -- the store does not change meanwhile, so the model reads it each time.
  unfoldable pub verify_sources : ArtifactStore → Items → Fallible (List String)
  unfolding Artifacts.get from_artifact_error Json.get
  verify_sources s nil = ok []
  verify_sources s (cons value rest) = do
    source ← source_fields value
    id ← source_id (Json.get source "id")
    metadata ← raised (Artifacts.get platform s id)
    raise_if (not (same_source metadata source))
        (job_error "artifact_hash_mismatch" "A plan source no longer matches its frozen identity.")
    ids ← verify_sources s rest
    ok (id ∷ ids)

  -- `get_plan`, with the identifiers of the verified sources.
  unfoldable pub checked_plan :
      String → Option String → ℕ → Database → Fallible (PrintPlanRecord × Fields × List String)
  unfolding validate_uuid validate_hash canonical_json sha256_text verify_sources Json.get
  checked_plan plan_id expected_hash now db = do
    id ← validate_uuid platform plan_id "invalid_plan_id"
    well_formed_hash expected_hash
    plan ← (elim (find_plan id db.plans) [
      | none ↦ err (job_error "plan_not_found" "Print plan was not found.")
      | some plan ↦ ok plan
    ])
    raise_if (leb plan.expires_at now) (job_error "plan_expired" "Print plan has expired.")
    manifest ← as_object (platform.loads plan.manifest_json)
    text ← canonical_json platform (obj manifest) "plan_content_invalid"
    raise_if (not (str_eq (sha256_text platform text) plan.plan_hash))
        (job_error "plan_hash_mismatch" "Print plan content failed verification.")
    expected_here expected_hash plan.plan_hash
    items ← as_items (Json.get manifest "source_artifacts")
    ids ← verify_sources db.store items
    ok (plan, manifest, ids)

  unfoldable pub get_plan : String → Option String → ℕ → Database → Fallible PlanResult
  unfolding checked_plan
  get_plan plan_id expected_hash now db = do
    (plan, manifest, ids) ← checked_plan plan_id expected_hash now db
    ok (plan_result plan manifest)
