-- ===== src/Services/Artifacts/Reaping/Sweep.antt =====
-- What `reap` of catlabel/services/artifacts.py leaves of a store.
use Prim.Native.String.{String}
use text.Mathlib.Text.{◌==◌ as str_eq}
use text.Mathlib.TextEquality.{eq_iff}
use catlabel.Prelude.{
  ℕ, ◌≤◌, ◌≡◌, refl, ap, sym, ◌∙◌, Bytes, List, [], ◌∷◌, Bool, true, false, ◌&&◌, ◌||◌, not, Option,
  none, some, ok, length, map, filter, leb, arith, Bool-cases, inl, inr, All, if◌then◌else◌, subst,
}
use catlabel.Prelude.Option
use catlabel.Services.Artifacts.Storage.{ensure_open-open}
use catlabel.Services.Platform.{Platform}
use catlabel.Services.Artifacts.{
  ArtifactRecord, ArtifactPin, ArtifactStore, Fallible, contains, strict_uuid,
}
use catlabel.Services.Artifacts.Reaping.{
  has_expired, is_pinned, is_due, unlink_all, finish_reap, reap_loop, reap,
}
use catlabel.Services.Artifacts.Reaping.Rounds.{alone, IsReaped, reap_loop-IsReaped, contains-head}

abbrev answered : ℕ → ArtifactStore → Fallible ℕ × ArtifactStore
answered n s = (ok n, s)

abbrev pub live_pins : ℕ → List ArtifactPin → List ArtifactPin
live_pins now pins = filter (λ p. not (has_expired now p.expires_at)) pins

pub is_pinned-live_pins :
    (now : ℕ) (id : String) (pins : List ArtifactPin)
    → is_pinned now id (live_pins now pins) ≡ is_pinned now id pins
is_pinned-live_pins now id [] = refl
is_pinned-live_pins now id (p ∷ pins) = ground (arith, is_pinned-live_pins now id pins)

is_due-live_pins :
    (now : ℕ) (pins : List ArtifactPin) → is_due now (live_pins now pins) ≡ is_due now pins
unfolding is_due
is_due-live_pins now pins = λ i r. leb r.expires_at now && not (is_pinned-live_pins now r.id pins i)

length-filter : {A : Type 0} (test : A → Bool) (xs : List A) → length (filter test xs) ≤ length xs
length-filter test [] = omega arith
length-filter test (x ∷ xs) = ground (arith, length-filter test xs)

All-contains :
    (P : String → Type 0) (ids : List String)
    → ((id : String) → contains id ids ≡ true → P id)
    → All P ids
unfolding contains
All-contains P [] h = tt
All-contains P (id ∷ ids) h =
    (h id (contains-head id ids), All-contains P ids (λ i e. h i (ground arith)))

contains-All :
    (P : String → Type 0) (test : ArtifactRecord → Bool) (records : List ArtifactRecord)
    (id : String)
    → All (λ r. P r.id) records
    → contains id (map (λ r. r.id) (filter test records)) ≡ true
    → P id
unfolding contains
contains-All P test [] id all h = cc
contains-All P test (r ∷ records) id (p, all) h = elim (Bool-cases (test r)) [
  | inr e ↦ contains-All P test records id all (rw e at h)
  | inl e ↦
      let found = rw e at h in
      elim (Bool-cases (str_eq r.id id)) [
        | inl s ↦ subst P ((eq_iff r.id id).0 s) p
        | inr s ↦ contains-All P test records id all (rw s at found)
      ]
]

module _ (platform : Platform) (unlinked : String → Bool) where
  -- The files that are gone are those of the identifiers, where the file system removes them.
  unlink_all-canonical :
      (ids : List String) (blobs : String → Option Bytes)
      → All (λ id. strict_uuid platform id ≡ ok id) ids
      → ((unlink_all platform unlinked ids blobs).0 ≡ ok tt)
        × ((id : String)
            → (unlink_all platform unlinked ids blobs).1 id
              ≡ (if contains id ids && unlinked id then none else blobs id))
  unfolding unlink_all contains
  unlink_all-canonical [] blobs h = (refl, λ id. refl)
  unlink_all-canonical (x ∷ ids) blobs (h, all) =
      let rest =
        unlink_all-canonical ids (λ i. if str_eq x i && unlinked x then none else blobs i) all in
      (rw (h, unlink_all) rest.0, λ id. rw (h, unlink_all) (rest.1 id ∙ merged id))
    where
      merged :
          (id : String)
          → (if contains id ids && unlinked id
              then none
              else (if str_eq x id && unlinked x then none else blobs id))
            ≡ (if (str_eq x id || contains id ids) && unlinked id then none else blobs id)
      merged id = elim (Bool-cases (str_eq x id)) [
        | inl s ↦ ground (arith, ap unlinked ((eq_iff x id).0 s))
        | inr s ↦ ground arith
      ]

pub reap-unclosed :
    (platform : Platform) (others : ℕ → ArtifactStore → ArtifactStore) (unlinked : String → Bool)
    (now rounds : ℕ) (s : ArtifactStore)
    → s.closed ≡ false
    → reap platform others unlinked now rounds s
      ≡ Option.map
          (finish_reap platform unlinked)
          (reap_loop others now rounds (record s { pins = live_pins now s.pins }))
unfolding reap
reap-unclosed platform others unlinked now rounds s unclosed =
    rw (ensure_open-open s unclosed, reap) refl

-- A store that was swept.
pub record IsSwept (unlinked : String → Bool) (now : ℕ) (s after : ArtifactStore) : Type 0 where
  pub records : after.records ≡ filter (λ r. not (is_due now s.pins r)) s.records
  pub pins : after.pins ≡ filter (λ p. not (has_expired now p.expires_at)) s.pins
  pub blobs :
      (id : String)
      → after.blobs id ≡ (
          if contains id (map (λ r. r.id) (filter (is_due now s.pins) s.records)) && unlinked id
          then none
          else s.blobs id)

finish_reap-IsSwept :
    (platform : Platform) (unlinked : String → Bool) (now : ℕ) (s : ArtifactStore)
    (removed : List String) (last : ArtifactStore)
    → All (λ r. strict_uuid platform r.id ≡ ok r.id) s.records
    → IsReaped now (record s { pins = live_pins now s.pins }) removed last
    → (after : ArtifactStore) × (finish_reap platform unlinked (removed, last)
        ≡ (ok (length (filter (is_due now s.pins) s.records)), after))
      × IsSwept unlinked now s after
finish_reap-IsSwept platform unlinked now s removed last canonical x =
    let e = is_due-live_pins now s.pins in
    let same : (id : String)
        → contains id removed
          ≡ contains id (map (λ r. r.id) (filter (is_due now s.pins) s.records)) =
      λ id. x.same_ids id ∙ ap (λ due. contains id (map (λ r. r.id) (filter due s.records))) e in
    let gone = unlink_all-canonical platform unlinked removed last.blobs (
      All-contains (λ id. strict_uuid platform id ≡ ok id) removed
        (λ id h.
          contains-All (λ i. strict_uuid platform i ≡ ok i) (is_due now s.pins) s.records id
            canonical (sym (same id) ∙ h))) in
    let after : ArtifactStore = record last {
      blobs = (unlink_all platform unlinked removed last.blobs).1;
    } in
    (
      after,
      rw gone.0
          (ap (λ n. answered n after) (x.counted ∙ ap (λ due. length (filter due s.records)) e)),
      record {
        records = ap (λ t. t.records) x.last_eq ∙ ap (λ due. filter (λ r. not (due r)) s.records) e;
        pins = ap (λ t. t.pins) x.last_eq;
        blobs = λ id.
            gone.1 id
            ∙ ap (λ b. if b && unlinked id then none else last.blobs id) (same id)
            ∙ ap
                (λ t.
                  if contains id (map (λ r. r.id) (filter (is_due now s.pins) s.records))
                    && unlinked id
                  then none
                  else t.blobs id)
                x.last_eq;
      },
    )

-- When no other connection interferes, `reap` ends within a round for each record, however the
-- expired records are batched: it deletes the records that are expired and not pinned, and no
-- others, drops the expired pins, removes the files of the deleted identifiers where the file system
-- lets it, and answers with the number of records deleted. The store is open and its identifiers are
-- canonical.
pub reap_sweeps :
    (platform : Platform) (unlinked : String → Bool) (now rounds : ℕ) (s : ArtifactStore)
    → s.closed ≡ false
    → All (λ r. strict_uuid platform r.id ≡ ok r.id) s.records
    → length s.records ≤ rounds
    → (after : ArtifactStore) × (reap platform alone unlinked now rounds s
        ≡ some (ok (length (filter (is_due now s.pins) s.records)), after))
      × IsSwept unlinked now s after
reap_sweeps platform unlinked now rounds s unclosed canonical enough =
    let start : ArtifactStore = record s { pins = live_pins now s.pins } in
    let (removed, last, ran, x) =
      reap_loop-IsReaped now rounds start
        (omega (arith, length-filter (is_due now (live_pins now s.pins)) s.records)) in
    let (after, finished, swept) =
      finish_reap-IsSwept platform unlinked now s removed last canonical x in
    (
      after,
      reap-unclosed platform alone unlinked now rounds s unclosed
          ∙ ap (Option.map (finish_reap platform unlinked)) ran
          ∙ ap some finished,
      swept,
    )
