-- ===== src/Services/Artifacts/Reaping/Rounds.antt =====
-- `reap` of catlabel/services/artifacts.py, round by round.
use Prim.Native.String.{String}
use catlabel.Prelude.{
  ℕ, zero, suc, ◌+◌, ◌≤◌, ◌≡◌, refl, ap, sym, ◌∙◌, List, [], ◌∷◌, ◌++◌, Bool, true, ◌||◌, not, some,
  length, take, map, filter, length-append, arith, Bool-cases, inl, inr,
}
use text.Mathlib.TextPositions.{eq_refl}
use catlabel.Services.Artifacts.{ArtifactRecord, ArtifactPin, ArtifactStore, contains}
use catlabel.Services.Artifacts.Reaping.{
  is_due, is_chosen, insert_by_expiry, order_by_expiry, candidates, delete_expired_candidates,
  reap_loop,
}

module _ {A : Type 0} (p q : A → Bool) (implies : (x : A) → p x ≡ true → q x ≡ true) where
  -- What is taken out of the chosen ones counts with what stays.
  length-filter_split :
      (xs : List A)
      → length (filter q (filter (λ x. not (p x)) xs)) + length (filter p xs) ≡ length (filter q xs)
  length-filter_split [] = omega arith
  length-filter_split (x ∷ xs) = ground (arith, length-filter_split xs, implies x)

  filter-filter-not :
      (xs : List A)
      → filter (λ x. not (q x)) (filter (λ x. not (p x)) xs) ≡ filter (λ x. not (q x)) xs
  filter-filter-not [] = refl
  filter-filter-not (x ∷ xs) = ground (arith, filter-filter-not xs, implies x)

  filter-filter_implied : (xs : List A) → filter p (filter q xs) ≡ filter p xs
  filter-filter_implied [] = refl
  filter-filter_implied (x ∷ xs) = ground (arith, filter-filter_implied xs, implies x)

filter-not-filter :
    {A : Type 0} (q : A → Bool) (xs : List A) → filter (λ x. not (q x)) (filter q xs) ≡ []
filter-not-filter q [] = refl
filter-not-filter q (x ∷ xs) = ground (arith, filter-not-filter q xs)

length-map : {A B : Type 0} (f : A → B) (xs : List A) → length (map f xs) ≡ length xs
length-map f [] = refl
length-map f (x ∷ xs) = omega (arith, length-map f xs)

-- The order does not change how many pass a test.
length-insert_by_expiry :
    (test : ArtifactRecord → Bool) (r : ArtifactRecord) (xs : List ArtifactRecord)
    → length (filter test (insert_by_expiry r xs)) ≡ length (filter test (r ∷ xs))
length-insert_by_expiry test r [] = refl
length-insert_by_expiry test r (x ∷ xs) = ground (arith, length-insert_by_expiry test r xs)

length-order_by_expiry :
    (test : ArtifactRecord → Bool) (xs : List ArtifactRecord)
    → length (filter test (order_by_expiry xs)) ≡ length (filter test xs)
unfolding order_by_expiry
length-order_by_expiry test [] = refl
length-order_by_expiry test (x ∷ xs) =
    ground
      (arith, length-insert_by_expiry test x (order_by_expiry xs), length-order_by_expiry test xs)

contains-deleted :
    (p q : ArtifactRecord → Bool)
    → ((x : ArtifactRecord) → p x ≡ true → q x ≡ true)
    → (id : String) (xs : List ArtifactRecord)
    → (contains id (map (λ r. r.id) (filter p xs))
        || contains id (map (λ r. r.id) (filter q (filter (λ x. not (p x)) xs))))
      ≡ contains id (map (λ r. r.id) (filter q xs))
unfolding contains
contains-deleted p q implies id [] = refl
contains-deleted p q implies id (x ∷ xs) =
    ground (arith, contains-deleted p q implies id xs, implies x)

pub contains-append :
    (id : String) (xs ys : List String)
    → contains id (xs ++ ys) ≡ (contains id xs || contains id ys)
unfolding contains
contains-append id [] ys = refl
contains-append id (x ∷ xs) ys = ground (arith, contains-append id xs ys)

pub contains-head : (id : String) (ids : List String) → contains id (id ∷ ids) ≡ true
unfolding contains
contains-head id ids = rw (eq_refl id) refl

module _ (now : ℕ) (ids : List String) (pins : List ArtifactPin) where
  chosen-is_due : (r : ArtifactRecord) → is_chosen now ids pins r ≡ true → is_due now pins r ≡ true
  chosen-is_due r h = ground arith

take-cons :
    (n : ℕ) (o : List ArtifactRecord) (r : ArtifactRecord) (rs : List ArtifactRecord)
    → take (suc n) o ≡ r ∷ rs
    → (xs : List ArtifactRecord) × (o ≡ r ∷ xs)
take-cons n [] r rs h = cc
take-cons n (x ∷ xs) r rs h = (xs, cc)

filter-head :
    (test : ArtifactRecord → Bool) (r : ArtifactRecord) (xs : List ArtifactRecord)
    → test r ≡ true
    → 1 ≤ length (filter test (r ∷ xs))
filter-head test r xs h = rw h (omega arith)

-- The first of the candidates is due, and its round deletes a record at least.
some_chosen :
    (now : ℕ) (s : ArtifactStore) (r : ArtifactRecord) (rs : List ArtifactRecord)
    → candidates now s ≡ r ∷ rs
    → 1 ≤ length (filter (is_chosen now (map (λ x. x.id) (r ∷ rs)) s.pins) s.records)
unfolding candidates
some_chosen now s r rs h =
    let due = is_due now s.pins in
    let ids = map (λ x. x.id) (r ∷ rs) in
    let chosen = is_chosen now ids s.pins in
    let found = filter due s.records in
    let (xs, first) = take-cons 499 (order_by_expiry found) r rs h in
    elim (Bool-cases (due r)) [
      | inl e ↦
          let here : 1 ≤ length (filter chosen (order_by_expiry found)) =
            rw first
              (filter-head chosen r xs (rw (contains-head r.id (map (λ x. x.id) rs), e) refl)) in
          let same : length (filter chosen found) ≡ length (filter chosen s.records) =
            ap length (filter-filter_implied chosen due (chosen-is_due now ids s.pins) s.records) in
          omega (arith, length-order_by_expiry chosen found)
      | inr e ↦
          let spared : ArtifactRecord → Bool = λ x. not (due x) in
          let here : 1 ≤ length (filter spared (order_by_expiry found)) =
            rw first (filter-head spared r xs (rw e refl)) in
          let no_one : length (filter spared found) ≡ 0 =
            ap length (filter-not-filter due s.records) in
          absurd (omega (arith, length-order_by_expiry spared found))
    ]

take-nil : (n : ℕ) (o : List ArtifactRecord) → take (suc n) o ≡ [] → o ≡ []
take-nil n [] h = refl
take-nil n (x ∷ xs) h = cc

no_candidates :
    (now : ℕ) (s : ArtifactStore)
    → candidates now s ≡ []
    → length (filter (is_due now s.pins) s.records) ≡ 0
unfolding candidates
no_candidates now s h =
    let due = is_due now s.pins in
    let found = filter due s.records in
    let none_ordered : length (filter due (order_by_expiry found)) ≡ 0 =
      rw (take-nil 499 (order_by_expiry found) h) refl in
    let same : length (filter due found) ≡ length found =
      ap length (filter-filter_implied due due (λ r e. e) s.records) in
    omega (arith, length-order_by_expiry due found)

-- The end of the loop over what is due.
pub record IsReaped (now : ℕ) (s : ArtifactStore) (removed : List String) (last : ArtifactStore)
    : Type 0 where
  pub last_eq : last ≡ record s { records = filter (λ r. not (is_due now s.pins r)) s.records }
  pub counted : length removed ≡ length (filter (is_due now s.pins) s.records)
  pub same_ids :
      (id : String)
      → contains id removed ≡ contains id (map (λ r. r.id) (filter (is_due now s.pins) s.records))

-- Nothing interferes.
abbrev pub alone : ℕ → ArtifactStore → ArtifactStore
alone rounds s = s

filter-nil : {A : Type 0} (q : A → Bool) (xs : List A) → length (filter q xs) ≡ 0 → filter q xs ≡ []
filter-nil q xs h = by_list (filter q xs) h
  where
    by_list : {A : Type 0} (found : List A) → length found ≡ 0 → found ≡ []
    by_list [] h = refl
    by_list (x ∷ found) h = absurd (omega arith)

filter-not-nil :
    {A : Type 0} (q : A → Bool) (xs : List A)
    → length (filter q xs) ≡ 0
    → filter (λ x. not (q x)) xs ≡ xs
filter-not-nil q [] h = refl
filter-not-nil q (x ∷ xs) h = ground (arith, filter-not-nil q xs)

reap_loop-done :
    (now rounds : ℕ) (s : ArtifactStore)
    → candidates now s ≡ []
    → reap_loop alone now rounds s ≡ some ([], s)
unfolding reap_loop
reap_loop-done now zero s e = rw (e, reap_loop) refl
reap_loop-done now (suc rounds) s e = rw (e, reap_loop) refl

done-IsReaped : (now : ℕ) (s : ArtifactStore) → candidates now s ≡ [] → IsReaped now s [] s
unfolding contains
done-IsReaped now s e =
    let due = is_due now s.pins in
    let none_due = no_candidates now s e in
    record {
      last_eq = ap (λ t. record s { records = t }) (sym (filter-not-nil due s.records none_due));
      counted = sym none_due;
      same_ids = λ id. rw (filter-nil due s.records none_due) refl;
    }

pub reap_loop-IsReaped :
    (now rounds : ℕ) (s : ArtifactStore)
    → length (filter (is_due now s.pins) s.records) ≤ rounds
    → (removed : List String) × (last : ArtifactStore) × (reap_loop alone now rounds s
        ≡ some (removed, last))
      × IsReaped now s removed last
unfolding reap_loop delete_expired_candidates
reap_loop-IsReaped now zero s h = by_candidates (candidates now s) refl
  where
    by_candidates :
        (found : List ArtifactRecord)
        → candidates now s ≡ found
        → (removed : List String) × (last : ArtifactStore) × (reap_loop alone now 0 s
            ≡ some (removed, last))
          × IsReaped now s removed last
    by_candidates [] e = ([], s, reap_loop-done now 0 s e, done-IsReaped now s e)
    by_candidates (r ∷ rs) e =
        let ids = map (λ x. x.id) (r ∷ rs) in
        absurd (
          omega (
            arith,
            some_chosen now s r rs e,
            length-filter_split (is_chosen now ids s.pins) (is_due now s.pins)
                (chosen-is_due now ids s.pins) s.records,
          ))
reap_loop-IsReaped now (suc rounds) s h =
    by_candidates (candidates now s) refl (reap_loop-IsReaped now rounds)
  where
    by_candidates :
        (found : List ArtifactRecord)
        → candidates now s ≡ found
        → ((t : ArtifactStore)
            → length (filter (is_due now t.pins) t.records) ≤ rounds
            → (removed : List String) × (last : ArtifactStore) × (reap_loop alone now rounds t
                ≡ some (removed, last))
              × IsReaped now t removed last)
        → (removed : List String) × (last : ArtifactStore) × (reap_loop alone now (suc rounds) s
            ≡ some (removed, last))
          × IsReaped now s removed last
    by_candidates [] e later = ([], s, reap_loop-done now (suc rounds) s e, done-IsReaped now s e)
    by_candidates (r ∷ rs) e later =
        let ids = map (λ x. x.id) (r ∷ rs) in
        let due = is_due now s.pins in
        let chosen = is_chosen now ids s.pins in
        let implies = chosen-is_due now ids s.pins in
        let after = (delete_expired_candidates now ids s).1 in
        let split = length-filter_split chosen due implies s.records in
        let (removed, last, ran, x) = later after (omega (arith, some_chosen now s r rs e)) in
        let deleted = map (λ x. x.id) (filter chosen s.records) in
        (
          deleted ++ removed,
          last,
          rw (e, ran, reap_loop) refl,
          record {
            last_eq =
                x.last_eq
                ∙ ap (λ t. record s { records = t })
                    (filter-filter-not chosen due implies s.records);
            counted = omega (
              arith,
              length-append deleted removed,
              x.counted,
              length-map (λ x. x.id) (filter chosen s.records),
            );
            same_ids = λ id.
                contains-append id deleted removed
                ∙ ap (λ t. contains id deleted || t) (x.same_ids id)
                ∙ contains-deleted chosen due implies id s.records;
          },
        )
