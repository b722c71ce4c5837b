-- ===== src/Services/Jobs/Listing/Paging.antt =====
-- The pages of `jobs_list` of catlabel/services/print_jobs.py, one after another.
use Prim.Native.String.{String}
use catlabel.Prelude.{
  ℕ, zero, suc, ◌+◌, ◌≤◌, ◌<◌, ◌≡◌, refl, ap, sym, ◌∙◌, inl, inr, Bool, true, false, ◌&&◌, Option,
  none, some, List, [], ◌∷◌, ◌++◌, length, take, drop, map, filter, All, Bool-cases, arith, subst,
  ok, err, ltb, leb, ltb→lt, take-append-drop, take-take_le, take-length, length-take, length-drop,
  append_assoc,
}
use catlabel.Prelude.Option
use catlabel.Services.Platform.{Platform}
use catlabel.Services.Jobs.{
  PrintJobRecord, Database, Fallible, JobResult, job_result, validate_uuid, validate_principal,
}
use catlabel.Services.Jobs.Listing.{
  last_id, order_by_id, is_listed, is_after, select_page, check_after, page_of, jobs_list,
}
use catlabel.Services.Jobs.Listing.Order.{
  AllComparable, IsAscending, order_by_id-IsAscending, filter-IsAscending, filter-All,
  order_by_id-All, filter-after, length-order_by_id,
}

abbrev prepend : List JobResult → Fallible (List JobResult) → Fallible (List JobResult)
prepend jobs (err e) = err e
prepend jobs (ok others) = ok (jobs ++ others)

-- A client that follows `next_after_id`; `none` if it is not done after so many pages.
unfoldable pub walk :
    (precedes : String → String → Bool) (platform : Platform) (principal : String) (limit : ℕ)
    (db : Database)
    → ℕ
    → Option String
    → Option (Fallible (List JobResult))
unfolding jobs_list
walk precedes platform principal limit db zero after_id = none
walk precedes platform principal limit db (suc pages) after_id =
    elim (jobs_list precedes platform principal limit after_id db) [
      | err e ↦ some (err e)
      | ok page ↦ elim page.next_after_id [
        | none ↦ some (ok page.jobs)
        | some id ↦
            Option.map (prepend page.jobs)
              (walk precedes platform principal limit db pages (some id))
      ]
    ]

last_id-snoc : (zs : List PrintJobRecord) (y : PrintJobRecord) → last_id (zs ++ y ∷ []) ≡ some y.id
last_id-snoc [] y = refl
last_id-snoc (z ∷ zs) y = rw (last_id-snoc zs y) refl

snoc_cases :
    (x : PrintJobRecord) (xs : List PrintJobRecord)
    → (zs : List PrintJobRecord) × (y : PrintJobRecord) × (x ∷ xs ≡ zs ++ y ∷ [])
snoc_cases x [] = ([], x, refl)
snoc_cases x (x' ∷ xs) = let (zs, y, e) = snoc_cases x' xs in (x ∷ zs, y, ap (λ t. x ∷ t) e)

-- A page that is not the last one ends with a job.
take-snoc :
    (limit : ℕ) (jobs : List PrintJobRecord)
    → 1 ≤ limit
    → limit < length jobs
    → (zs : List PrintJobRecord) × (y : PrintJobRecord) × (take limit jobs ≡ zs ++ y ∷ [])
take-snoc zero jobs h more = absurd (omega arith)
take-snoc (suc limit) [] h more = absurd (omega arith)
take-snoc (suc limit) (x ∷ jobs) h more = snoc_cases x (take limit jobs)

map-append : {A B : Type 0} (f : A → B) (xs ys : List A) → map f (xs ++ ys) ≡ map f xs ++ map f ys
map-append f [] ys = refl
map-append f (x ∷ xs) ys = ap (λ t. f x ∷ t) (map-append f xs ys)

All-back :
    (P : PrintJobRecord → Type 0) (xs : List PrintJobRecord) (ys : List PrintJobRecord)
    → All P (xs ++ ys)
    → All P ys
All-back P [] ys all = all
All-back P (x ∷ xs) ys (p, all) = All-back P xs ys all

filter_all : (xs : List PrintJobRecord) → filter (λ job. true) xs ≡ xs
filter_all [] = refl
filter_all (x ∷ xs) = ap (λ t. x ∷ t) (filter_all xs)

module _ (platform : Platform) (limit : ℕ) (rest : List PrintJobRecord) where
  last_page :
      length rest ≤ limit
      → page_of platform limit (take (limit + 1) rest)
        ≡ record { jobs = map (job_result platform) rest; next_after_id = none }
  last_page h =
      let fetched = take-length (limit + 1) rest (omega arith) in
      let few : ltb limit (length rest) ≡ false = ground arith in
      rw (fetched, few, take-length limit rest h) refl

  full_page :
      limit < length rest
      → page_of platform limit (take (limit + 1) rest) ≡ record {
        jobs = map (job_result platform) (take limit rest);
        next_after_id = last_id (take limit rest);
      }
  full_page h =
      let more : ltb limit (length (take (limit + 1) rest)) ≡ true =
        ground (arith, length-take (limit + 1) rest) in
      rw (more, take-take_le limit (limit + 1) rest (omega arith)) refl

module _ (precedes : String → String → Bool) (platform : Platform) (principal : String) (limit : ℕ)
    (db : Database)
    (transitive : (a b c : String)
      → precedes a b ≡ true
      → precedes b c ≡ true
      → precedes a c ≡ true)
    (irreflexive : (a : String) → precedes a a ≡ false)
    (known : validate_principal principal ≡ ok tt) (some_limit : 1 ≤ limit)
    (small_limit : limit ≤ 100) where
  abbrev listed : List PrintJobRecord
  listed = filter (is_listed principal) (order_by_id precedes db.jobs)

  abbrev Canonical : PrintJobRecord → Type 0
  Canonical job = check_after platform (some job.id) ≡ ok (some job.id)

  page-eq :
      (after_id : Option String) (rest : List PrintJobRecord)
      → check_after platform after_id ≡ ok after_id
      → filter (is_after precedes after_id) listed ≡ rest
      → jobs_list precedes platform principal limit after_id db
        ≡ ok (page_of platform limit (take (limit + 1) rest))
  unfolding jobs_list select_page
  page-eq after_id rest valid e =
      let in_range : (leb 1 limit && leb limit 100) ≡ true = ground arith in
      rw (known, in_range, valid, e, jobs_list, select_page) refl

  walk-rest :
      (pages : ℕ) (before rest : List PrintJobRecord) (after_id : Option String)
      → length rest < pages
      → listed ≡ before ++ rest
      → IsAscending precedes (before ++ rest)
      → All Canonical rest
      → check_after platform after_id ≡ ok after_id
      → filter (is_after precedes after_id) listed ≡ rest
      → walk precedes platform principal limit db pages after_id
        ≡ some (ok (map (job_result platform) rest))
  unfolding walk
  walk-rest zero before rest after_id h split up ids valid e = absurd (omega arith)
  walk-rest (suc pages) before rest after_id h split up ids valid e =
      elim (Bool-cases (ltb limit (length rest))) [
        | inr few ↦
            let page =
              page-eq after_id rest valid e
              ∙ ap ok (last_page platform limit rest (ground arith)) in
            rw (page, walk) refl
        | inl more ↦
            let (zs, y, cut) = take-snoc limit rest some_limit (ground arith) in
            let others = drop limit rest in
            let whole : take limit rest ++ others ≡ rest = take-append-drop limit rest in
            let parts : before ++ rest ≡ (before ++ zs) ++ y ∷ others =
              ap (λ t. before ++ t)
                (sym whole ∙ ap (λ t. t ++ others) cut ∙ append_assoc zs (y ∷ []) others)
              ∙ sym (append_assoc before zs (y ∷ others)) in
            let found : listed ≡ (before ++ zs) ++ y ∷ others = split ∙ parts in
            let rising : IsAscending precedes ((before ++ zs) ++ y ∷ others) =
              subst (IsAscending precedes) parts up in
            let joined : (before ++ zs) ++ y ∷ others ≡ ((before ++ zs) ++ y ∷ []) ++ others =
              sym (append_assoc (before ++ zs) (y ∷ []) others) in
            let apart =
              subst (All Canonical)
                (sym whole ∙ ap (λ t. t ++ others) cut ∙ append_assoc zs (y ∷ []) others) ids in
            let next =
              walk-rest pages ((before ++ zs) ++ y ∷ []) others (some y.id)
                (omega (arith, length-drop limit rest, ltb→lt limit (length rest) more))
                (found ∙ joined) (subst (IsAscending precedes) joined rising)
                (All-back Canonical zs (y ∷ others) apart).1
                (All-back Canonical zs (y ∷ others) apart).0
                (ap (filter (is_after precedes (some y.id))) found
                  ∙ filter-after precedes transitive irreflexive (before ++ zs) y others rising) in
            let page =
              page-eq after_id rest valid e
              ∙ ap ok (
                  full_page platform limit rest (ground arith)
                  ∙ ap
                      (λ id. record {
                        jobs = map (job_result platform) (take limit rest);
                        next_after_id = id;
                      })
                      (ap last_id cut ∙ last_id-snoc zs y)) in
            rw (page, next, walk)
              (ap (λ jobs. some (ok jobs))
                (sym (map-append (job_result platform) (take limit rest) others)
                  ∙ ap (map (job_result platform)) whole))
      ]

filter-filter :
    (test q : PrintJobRecord → Bool) (xs : List PrintJobRecord)
    → filter test (filter q xs) ≡ filter (λ job. q job && test job) xs
filter-filter test q [] = refl
filter-filter test q (x ∷ xs) = ground (arith, filter-filter test q xs)

length-filter :
    (test : PrintJobRecord → Bool) (xs : List PrintJobRecord) → length (filter test xs) ≤ length xs
length-filter test [] = omega arith
length-filter test (x ∷ xs) = ground (arith, length-filter test xs)

length_suc : (n : ℕ) → n + 1 ≡ suc n
length_suc n = omega arith

canonical_after :
    (platform : Platform) (jobs : List PrintJobRecord)
    → All (λ job. validate_uuid platform job.id "invalid_after_id" ≡ ok job.id) jobs
    → All (λ job. check_after platform (some job.id) ≡ ok (some job.id)) jobs
canonical_after platform [] ids = tt
canonical_after platform (job ∷ jobs) (id, ids) = (rw id refl, canonical_after platform jobs ids)

-- A client that asks for the jobs of a principal page by page, with any limit from 1 to 100, and
-- follows `next_after_id`, is done after a page for each job and one more at most, and has then
-- received each job of the principal once, in the ascending order of the identifiers. The order of
-- the texts is transitive and irreflexive and tells any two identifiers of the table apart; the
-- identifiers are canonical, and the principal has a valid length.
pub walk_lists :
    (precedes : String → String → Bool) (platform : Platform) (principal : String) (limit : ℕ)
    (db : Database)
    → ((a b c : String) → precedes a b ≡ true → precedes b c ≡ true → precedes a c ≡ true)
    → ((a : String) → precedes a a ≡ false)
    → validate_principal principal ≡ ok tt
    → 1 ≤ limit
    → limit ≤ 100
    → AllComparable precedes db.jobs
    → All (λ job. validate_uuid platform job.id "invalid_after_id" ≡ ok job.id) db.jobs
    → (jobs : List PrintJobRecord) × (walk precedes platform principal limit db
          (length db.jobs + 1)
          none
        ≡ some (ok (map (job_result platform) jobs)))
      × IsAscending precedes jobs
      × ((test : PrintJobRecord → Bool)
          → length (filter test jobs) ≡ length (filter test (filter (is_listed principal) db.jobs)))
walk_lists precedes platform principal limit db transitive irreflexive known some_limit small_limit
      comparable ids =
    let ordered = order_by_id precedes db.jobs in
    let jobs = filter (is_listed principal) ordered in
    let rising =
      filter-IsAscending precedes transitive (is_listed principal) ordered
        (order_by_id-IsAscending precedes transitive db.jobs comparable) in
    let fewer : length jobs ≤ length db.jobs = omega (
      arith,
      length-filter (is_listed principal) ordered,
      ap length (filter_all ordered),
      ap length (filter_all db.jobs),
      length-order_by_id precedes (λ job. true) db.jobs,
    ) in
    (
      jobs,
      rw (length_suc (length db.jobs)) (
          walk-rest precedes platform principal limit db transitive irreflexive known some_limit
            small_limit (suc (length db.jobs)) [] jobs none (omega arith) refl rising
            (filter-All (λ job. check_after platform (some job.id) ≡ ok (some job.id))
              (is_listed principal) ordered
              (order_by_id-All precedes
                (λ job. check_after platform (some job.id) ≡ ok (some job.id)) db.jobs
                (canonical_after platform db.jobs ids)))
            refl (filter_all jobs)),
      rising,
      λ test.
          ap length (filter-filter test (is_listed principal) ordered)
          ∙ length-order_by_id precedes (λ job. is_listed principal job && test job) db.jobs
          ∙ sym (ap length (filter-filter test (is_listed principal) db.jobs)),
    )
