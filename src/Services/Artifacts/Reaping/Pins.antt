-- ===== src/Services/Artifacts/Reaping/Pins.antt =====
-- Pinned artifacts during `reap` of catlabel/services/artifacts.py, with other connections at work.
use Prim.Native.String.{String}
use text.Mathlib.Text.{◌==◌ as str_eq}
use text.Mathlib.TextEquality.{eq_iff}
use catlabel.Prelude.{
  ◌*◌, ◌+◌, ℕ, zero, suc, ◌≡◌, refl, sym, ◌∙◌, Bytes, List, [], ◌∷◌, ◌++◌, Bool, true, false, ◌&&◌,
  ◌||◌, not, Option, none, some, ok, err, ok-injective, map, filter, arith, Bool-cases,
  Result-cases, inl, inr, if◌then◌else◌, subst,
}
use catlabel.Prelude.Option
use catlabel.Services.Platform.{Platform}
use catlabel.Services.Artifacts.{
  ArtifactRecord, ArtifactPin, ArtifactStore, artifact_error, Fallible, contains, strict_uuid,
  ensure_open,
}
use catlabel.Services.Artifacts.Reaping.{
  is_pinned, is_due, is_chosen, candidates, delete_expired_candidates, unlink_all, finish_reap,
  reap_loop, reap,
}
use catlabel.Services.Artifacts.Reaping.Rounds.{contains-append}
use catlabel.Services.Artifacts.Reaping.Sweep.{live_pins, is_pinned-live_pins}

module _ (now : ℕ) (id : String) (content : Option Bytes) where
  -- The artifact has a record, a pin that has not expired, and its file.
  pub record IsHeld (s : ArtifactStore) : Type 0 where
    pub recorded : contains id (map (λ r. r.id) s.records) ≡ true
    pub pinned : is_pinned now id s.pins ≡ true
    pub filed : s.blobs id ≡ content

  pinned-is_spared :
      (ids : List String) (pins : List ArtifactPin)
      → is_pinned now id pins ≡ true
      → (records : List ArtifactRecord)
      → (contains id (map (λ r. r.id) (filter (is_chosen now ids pins) records)) ≡ false)
        × (contains id (map (λ r. r.id) (filter (λ r. not (is_chosen now ids pins r)) records))
            ≡ contains id (map (λ r. r.id) records))
  unfolding contains is_due
  pinned-is_spared ids pins pinned [] = (refl, refl)
  pinned-is_spared ids pins pinned (r ∷ records) =
      let (gone, rest) = pinned-is_spared ids pins pinned records in
      let same : str_eq r.id id ≡ true → is_pinned now r.id pins ≡ true =
        λ e. rw ((eq_iff r.id id).0 e) pinned in
      elim (Bool-cases (str_eq r.id id)) [
        | inl e ↦
            let spared : is_chosen now ids pins r ≡ false = let p = same e in ground arith in
            (rw spared gone, rw (spared, e) refl)
        | inr e ↦ (ground arith, ground arith)
      ]

  delete_expired_candidates-IsHeld :
      (ids : List String) (s : ArtifactStore)
      → IsHeld s
      → (contains id (delete_expired_candidates now ids s).0 ≡ false)
        × IsHeld (delete_expired_candidates now ids s).1
  unfolding delete_expired_candidates
  delete_expired_candidates-IsHeld ids s h =
      let (gone, rest) = pinned-is_spared ids s.pins h.pinned s.records in
      (gone, record { recorded = rest ∙ h.recorded; pinned = h.pinned; filed = h.filed })

  abbrev Spared : Option (List String × ArtifactStore) → Type 0
  Spared none = Unit
  Spared (some (removed, last)) = (contains id removed ≡ false) × IsHeld last

  Spared-map :
      (deleted : List String) (found : Option (List String × ArtifactStore))
      → contains id deleted ≡ false
      → Spared found
      → Spared (Option.map (λ (removed, last). (deleted ++ removed, last)) found)
  Spared-map deleted none gone held = tt
  Spared-map deleted (some (removed, last)) gone (others_gone, held) =
      (rw (contains-append id deleted removed, gone, others_gone) refl, held)

  module _ (others : ℕ → ArtifactStore → ArtifactStore)
      (keeps : (k : ℕ) (s : ArtifactStore) → IsHeld s → IsHeld (others k s)) where
    reap_loop-Spared :
        (rounds : ℕ) (s : ArtifactStore) → IsHeld s → Spared (reap_loop others now rounds s)
    unfolding reap_loop contains
    reap_loop-Spared zero s h = by_list (candidates now (others 0 s))
      where
        by_list :
            (found : List ArtifactRecord)
            → Spared (elim found [ [] ↦ some ([], others 0 s) | r ∷ rs ↦ none ])
        by_list [] = (refl, keeps 0 s h)
        by_list (r ∷ rs) = tt
    reap_loop-Spared (suc rounds) s h =
        by_list (others (2 * rounds + 1) s) (keeps (2 * rounds + 1) s h)
          (candidates now (others (2 * rounds + 1) s)) (reap_loop-Spared rounds)
      where
        by_list :
            (seen : ArtifactStore)
            → IsHeld seen
            → (found : List ArtifactRecord)
            → ((t : ArtifactStore) → IsHeld t → Spared (reap_loop others now rounds t))
            → Spared (elim found [
              | [] ↦ some ([], seen)
              | r ∷ rs ↦
                  let (deleted, after) =
                    delete_expired_candidates now
                      (map (λ x. x.id) (r ∷ rs))
                      (others (2 * rounds + 2) seen) in
                  Option.map
                    (λ (removed, last). (deleted ++ removed, last))
                    (reap_loop others now rounds after)
            ])
        by_list seen h [] later = (refl, h)
        by_list seen h (r ∷ rs) later =
            let ids = map (λ x. x.id) (r ∷ rs) in
            let before = others (2 * rounds + 2) seen in
            let (gone, held) =
              delete_expired_candidates-IsHeld ids before (keeps (2 * rounds + 2) seen h) in
            let after = (delete_expired_candidates now ids before).1 in
            Spared-map (delete_expired_candidates now ids before).0
              (reap_loop others now rounds after) gone (later after held)

or-eq_false : (a b : Bool) → (a || b) ≡ false → (a ≡ false) × (b ≡ false)
or-eq_false a b h = ground arith

strict_uuid-eq_ok : (platform : Platform) (x n : String) → strict_uuid platform x ≡ ok n → n ≡ x
unfolding strict_uuid
strict_uuid-eq_ok platform x n h = by_text (platform.uuid_text x) h
  where
    by_test :
        (m : String) (same : Bool)
        → (same ≡ true → m ≡ x)
        → (if same
            then ok m
            else err (artifact_error "invalid_artifact_id" "Artifact ID is invalid."))
          ≡ ok n
        → n ≡ x
    by_test m true e g = sym (ok-injective g) ∙ e refl
    by_test m false e g = cc

    by_text :
        (found : Option String)
        → (elim found [
          | none ↦ err (artifact_error "invalid_artifact_id" "Artifact ID is invalid.")
          | some m ↦
              if str_eq m x
              then ok m
              else err (artifact_error "invalid_artifact_id" "Artifact ID is invalid.")
        ])
          ≡ ok n
        → n ≡ x
    by_text none g = cc
    by_text (some m) g = by_test m (str_eq m x) (λ e. (eq_iff m x).0 e) g

-- A file whose identifier was not removed stays.
unlink_all-spared :
    (platform : Platform) (unlinked : String → Bool) (id : String) (ids : List String)
    (blobs : String → Option Bytes)
    → contains id ids ≡ false
    → (unlink_all platform unlinked ids blobs).1 id ≡ blobs id
unfolding unlink_all contains
unlink_all-spared platform unlinked id [] blobs h = refl
unlink_all-spared platform unlinked id (x ∷ ids) blobs h =
    let (other, rest) = or-eq_false (str_eq x id) (contains id ids) h in
    elim (Result-cases (strict_uuid platform x)) [
      | inr (e, r) ↦ rw (r, unlink_all) refl
      | inl (n, r) ↦
          let same = strict_uuid-eq_ok platform x n r in
          let next : String → Option Bytes =
            λ i. if str_eq n i && unlinked n then none else blobs i in
          let here : next id ≡ blobs id = rw (same, other) refl in
          rw (r, unlink_all) (unlink_all-spared platform unlinked id ids next rest ∙ here)
    ]

abbrev Held : ℕ → String → Option Bytes → Option (Fallible ℕ × ArtifactStore) → Type 0
Held now id content none = Unit
Held now id content (some (answer, after)) = IsHeld now id content after

finish_reap-Held :
    (platform : Platform) (unlinked : String → Bool) (now : ℕ) (id : String)
    (content : Option Bytes) (found : Option (List String × ArtifactStore))
    → Spared now id content found
    → Held now id content (Option.map (finish_reap platform unlinked) found)
finish_reap-Held platform unlinked now id content none h = tt
finish_reap-Held platform unlinked now id content (some (removed, last)) (gone, held) = record {
  recorded = held.recorded;
  pinned = held.pinned;
  filed = unlink_all-spared platform unlinked id removed last.blobs gone ∙ held.filed;
}

-- An artifact that has a record, a pin that has not expired at the clock reading, and its file keeps
-- all three through `reap`, whatever other connections do before a query and between it and the
-- deletion of its round, if they leave the artifact its record, a pin and its file; and whatever
-- comes of the rest.
pub reap-IsHeld :
    (platform : Platform) (others : ℕ → ArtifactStore → ArtifactStore) (unlinked : String → Bool)
    (now rounds : ℕ) (id : String) (content : Option Bytes) (s : ArtifactStore)
    (answer : Fallible ℕ) (after : ArtifactStore)
    → ((k : ℕ) (t : ArtifactStore) → IsHeld now id content t → IsHeld now id content (others k t))
    → IsHeld now id content s
    → reap platform others unlinked now rounds s ≡ some (answer, after)
    → IsHeld now id content after
unfolding reap
reap-IsHeld platform others unlinked now rounds id content s answer after keeps h e =
    let start : ArtifactStore = record s { pins = live_pins now s.pins } in
    let held : IsHeld now id content start = record {
      recorded = h.recorded;
      pinned = is_pinned-live_pins now id s.pins ∙ h.pinned;
      filed = h.filed;
    } in
    let run = reap_loop-Spared now id content others keeps rounds start held in
    subst (Held now id content) e (
      by_answer (ensure_open s)
        (finish_reap-Held platform unlinked now id content (reap_loop others now rounds start) run))
  where
    by_answer :
        (opened : Fallible (Unit {0}))
        → Held now id content (
            Option.map
              (finish_reap platform unlinked)
              (reap_loop others now rounds (record s { pins = live_pins now s.pins })))
        → Held now id content (elim opened [
          | err x ↦ some (err x, s)
          | ok u ↦
              Option.map
                (finish_reap platform unlinked)
                (reap_loop others now rounds (record s { pins = live_pins now s.pins }))
        ])
    by_answer (err x) finished = h
    by_answer (ok u) finished = finished
