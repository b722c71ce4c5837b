-- ===== src/Services/Artifacts/Reaping.antt =====
-- `reap` of catlabel/services/artifacts.py. Before the query of a round, and between it and the
-- deletion, other connections may change the tables: `others`, by the transactions that are left.
-- `unlinked` says which files the file system removes.
pub mod Rounds
pub mod Sweep
pub mod Pins
use Prim.Native.String.{String}
use text.Mathlib.Text.{◌==◌ as str_eq}
use catlabel.Prelude.{
  ◌*◌, ◌+◌, ℕ, zero, suc, List, [], ◌∷◌, ◌++◌, Bytes, Bool, true, false, ◌&&◌, ◌||◌, not, Option,
  none, some, Result, ok, err, length, take, map, leb, if◌then◌else◌, filter,
}
use catlabel.Prelude.Option
use catlabel.Services.Platform.{Platform}
use catlabel.Services.Artifacts.{
  ArtifactRecord, ArtifactPin, ArtifactStore, ArtifactError, artifact_error, Fallible, contains,
  strict_uuid, ensure_open,
}

abbrev pub has_expired : ℕ → Option ℕ → Bool
has_expired now none = false
has_expired now (some t) = leb t now

-- `pinned.exists()` for a record's identifier
abbrev pub is_pinned : ℕ → String → List ArtifactPin → Bool
is_pinned now id [] = false
is_pinned now id (p ∷ pins) =
    str_eq p.artifact_id id && not (has_expired now p.expires_at) || is_pinned now id pins

unfoldable pub is_due : ℕ → List ArtifactPin → ArtifactRecord → Bool
is_due now pins r = leb r.expires_at now && not (is_pinned now r.id pins)

-- `order_by(expires_at)`
abbrev pub insert_by_expiry : ArtifactRecord → List ArtifactRecord → List ArtifactRecord
insert_by_expiry r [] = r ∷ []
insert_by_expiry r (x ∷ xs) =
    let rest = insert_by_expiry r xs in
    if leb r.expires_at x.expires_at then r ∷ x ∷ xs else x ∷ rest

unfoldable pub order_by_expiry : List ArtifactRecord → List ArtifactRecord
order_by_expiry [] = []
order_by_expiry (r ∷ rs) = insert_by_expiry r (order_by_expiry rs)

unfoldable pub candidates : ℕ → ArtifactStore → List ArtifactRecord
unfolding is_due order_by_expiry
candidates now s = take 500 (order_by_expiry (filter (is_due now s.pins) s.records))

-- The condition of `_delete_expired_candidates` on a record.
abbrev pub is_chosen : ℕ → List String → List ArtifactPin → ArtifactRecord → Bool
is_chosen now ids pins r = contains r.id ids && is_due now pins r

unfoldable pub delete_expired_candidates :
    ℕ → List String → ArtifactStore → List String × ArtifactStore
unfolding is_due
delete_expired_candidates now ids s = (
  map (λ r. r.id) (filter (is_chosen now ids s.pins) s.records),
  record s { records = filter (λ r. not (is_chosen now ids s.pins r)) s.records },
)

-- The `while` loop, to the identifiers that were removed; `none` is a loop that goes on. `others` says
-- what other connections do before each query and between it and the deletion of its round.
unfoldable pub reap_loop :
    (ℕ → ArtifactStore → ArtifactStore)
    → ℕ
    → ℕ
    → ArtifactStore
    → Option (List String × ArtifactStore)
unfolding candidates delete_expired_candidates
reap_loop others now zero s =
    let seen = others 0 s in elim (candidates now seen) [ [] ↦ some ([], seen) | r ∷ rs ↦ none ]
reap_loop others now (suc rounds) s =
    let seen = others (2 * rounds + 1) s in
    elim (candidates now seen) [
      | [] ↦ some ([], seen)
      | r ∷ rs ↦
          let (deleted, after) =
            delete_expired_candidates now (map (λ x. x.id) (r ∷ rs))
              (others (2 * rounds + 2) seen) in
          Option.map (λ (removed, last). (deleted ++ removed, last))
            (reap_loop others now rounds after)
    ]

module _ (platform : Platform) where
  -- The loop over `removed`; a path is made of a canonical identifier alone.
  unfoldable pub unlink_all :
      (String → Bool)
      → List String
      → (String → Option Bytes)
      → Fallible (Unit {0}) × (String → Option Bytes)
  unfolding strict_uuid
  unlink_all unlinked [] blobs = (ok tt, blobs)
  unlink_all unlinked (id ∷ ids) blobs = elim (strict_uuid platform id) [
    | err e ↦ (err e, blobs)
    | ok normalized ↦
        unlink_all unlinked ids
          (λ i. if str_eq normalized i && unlinked normalized then none else blobs i)
  ]

  abbrev pub finish_reap :
      (String → Bool) → List String × ArtifactStore → Fallible ℕ × ArtifactStore
  finish_reap unlinked (removed, s) =
      let (answer, blobs) = unlink_all unlinked removed s.blobs in
      (elim answer [ err e ↦ err e | ok u ↦ ok (length removed) ], record s { blobs = blobs })

  -- `reap`
  unfoldable pub reap :
      (others : ℕ → ArtifactStore → ArtifactStore) (unlinked : String → Bool) (now rounds : ℕ)
      → ArtifactStore
      → Option (Fallible ℕ × ArtifactStore)
  unfolding ensure_open reap_loop unlink_all
  reap others unlinked now rounds s = elim (ensure_open s) [
    | err e ↦ some (err e, s)
    | ok u ↦ Option.map (finish_reap unlinked) (
        reap_loop others now rounds
          (record s { pins = filter (λ p. not (has_expired now p.expires_at)) s.pins }))
  ]
