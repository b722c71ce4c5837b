-- ===== src/Services/Jobs/Listing/Order.antt =====
-- The order of the jobs that `jobs_list` of catlabel/services/print_jobs.py reports.
use Prim.Native.String.{String}
use catlabel.Prelude.{
  ◌≡◌, refl, ap, ◌⊎◌, inl, inr, Bool, true, false, some, List, [], ◌∷◌, ◌++◌, length, filter,
  if◌then◌else◌, All, Bool-cases, arith,
}
use catlabel.Services.Jobs.{PrintJobRecord}
use catlabel.Services.Jobs.Listing.{insert_by_id, order_by_id, is_after}

pub filter-All :
    (P : PrintJobRecord → Type 0) (test : PrintJobRecord → Bool) (xs : List PrintJobRecord)
    → All P xs
    → All P (filter test xs)
filter-All P test [] all = tt
filter-All P test (x ∷ xs) (p, all) = by_test (test x) (filter-All P test xs all)
  where
    by_test :
        (kept : Bool)
        → All P (filter test xs)
        → All P (if kept then x ∷ filter test xs else filter test xs)
    by_test true rest = (p, rest)
    by_test false rest = rest

module _ (precedes : String → String → Bool) where
  abbrev pub Precedes : PrintJobRecord → PrintJobRecord → Type 0
  Precedes x y = precedes x.id y.id ≡ true

  -- No two of the jobs have the same identifier: each two are in one order or the other.
  abbrev pub AllComparable : List PrintJobRecord → Type 0
  AllComparable [] = Unit
  AllComparable (x ∷ xs) = All (λ y. Precedes x y ⊎ Precedes y x) xs × AllComparable xs

  abbrev pub IsAscending : List PrintJobRecord → Type 0
  IsAscending [] = Unit
  IsAscending (x ∷ xs) = All (Precedes x) xs × IsAscending xs

  insert_by_id-All :
      (P : PrintJobRecord → Type 0) (job : PrintJobRecord) (xs : List PrintJobRecord)
      → P job
      → All P xs
      → All P (insert_by_id precedes job xs)
  insert_by_id-All P job [] p all = (p, tt)
  insert_by_id-All P job (x ∷ xs) p (q, all) =
      by_test (precedes job.id x.id) (insert_by_id-All P job xs p all)
    where
      by_test :
          (first : Bool)
          → All P (insert_by_id precedes job xs)
          → All P (if first then job ∷ x ∷ xs else x ∷ insert_by_id precedes job xs)
      by_test true rest = (p, (q, all))
      by_test false rest = (q, rest)

  pub order_by_id-All :
      (P : PrintJobRecord → Type 0) (jobs : List PrintJobRecord)
      → All P jobs
      → All P (order_by_id precedes jobs)
  unfolding order_by_id
  order_by_id-All P [] all = tt
  order_by_id-All P (job ∷ jobs) (p, all) =
      insert_by_id-All P job (order_by_id precedes jobs) p (order_by_id-All P jobs all)

  module _
      (transitive : (a b c : String)
        → precedes a b ≡ true
        → precedes b c ≡ true
        → precedes a c ≡ true) where
    All-Precedes :
        (x y : PrintJobRecord) (ys : List PrintJobRecord)
        → Precedes x y
        → All (Precedes y) ys
        → All (Precedes x) ys
    All-Precedes x y [] before all = tt
    All-Precedes x y (z ∷ ys) before (p, all) =
        (transitive x.id y.id z.id before p, All-Precedes x y ys before all)

    insert_by_id-IsAscending :
        (job : PrintJobRecord) (xs : List PrintJobRecord)
        → All (λ y. Precedes job y ⊎ Precedes y job) xs
        → IsAscending xs
        → IsAscending (insert_by_id precedes job xs)
    insert_by_id-IsAscending job [] ordered up = (tt, tt)
    insert_by_id-IsAscending job (x ∷ xs) (either, ordered) (above, up) =
        by_test (precedes job.id x.id) refl (insert_by_id-IsAscending job xs ordered up)
      where
        later : (precedes job.id x.id ≡ false) → Precedes x job
        later e = elim either [ inl p ↦ cc | inr p ↦ p ]

        by_test :
            (first : Bool)
            → precedes job.id x.id ≡ first
            → IsAscending (insert_by_id precedes job xs)
            → IsAscending (if first then job ∷ x ∷ xs else x ∷ insert_by_id precedes job xs)
        by_test true e rest = ((e, All-Precedes job x xs e above), (above, up))
        by_test false e rest = (insert_by_id-All (Precedes x) job xs (later e) above, rest)

    pub order_by_id-IsAscending :
        (jobs : List PrintJobRecord) → AllComparable jobs → IsAscending (order_by_id precedes jobs)
    unfolding order_by_id
    order_by_id-IsAscending [] ordered = tt
    order_by_id-IsAscending (job ∷ jobs) (first, ordered) =
        insert_by_id-IsAscending job (order_by_id precedes jobs)
          (order_by_id-All (λ y. Precedes job y ⊎ Precedes y job) jobs first)
          (order_by_id-IsAscending jobs ordered)

    pub filter-IsAscending :
        (test : PrintJobRecord → Bool) (xs : List PrintJobRecord)
        → IsAscending xs
        → IsAscending (filter test xs)
    filter-IsAscending test [] up = tt
    filter-IsAscending test (x ∷ xs) (above, up) =
        by_test (test x) (filter-All (Precedes x) test xs above) (filter-IsAscending test xs up)
      where
        by_test :
            (kept : Bool)
            → All (Precedes x) (filter test xs)
            → IsAscending (filter test xs)
            → IsAscending (if kept then x ∷ filter test xs else filter test xs)
        by_test true all rest = (all, rest)
        by_test false all rest = rest

    filter-above :
        (y : PrintJobRecord) (ys : List PrintJobRecord)
        → All (Precedes y) ys
        → filter (is_after precedes (some y.id)) ys ≡ ys
    filter-above y [] all = refl
    filter-above y (z ∷ ys) (p, all) = rw p (ap (λ t. z ∷ t) (filter-above y ys all))

    module _ (irreflexive : (a : String) → precedes a a ≡ false) where
      -- What comes after a job of an ascending list is the rest of it.
      pub filter-after :
          (xs : List PrintJobRecord) (y : PrintJobRecord) (ys : List PrintJobRecord)
          → IsAscending (xs ++ y ∷ ys)
          → filter (is_after precedes (some y.id)) (xs ++ y ∷ ys) ≡ ys
      filter-after [] y ys (above, up) = rw (irreflexive y.id) (filter-above y ys above)
      filter-after (x ∷ xs) y ys (above, up) = elim (Bool-cases (precedes y.id x.id)) [
        | inl back ↦ cc (
          irreflexive x.id,
          transitive x.id y.id x.id (All-middle (Precedes x) xs y ys above) back,
        )
        | inr e ↦ rw e (filter-after xs y ys up)
      ]
        where
          All-middle :
              (P : PrintJobRecord → Type 0) (before : List PrintJobRecord) (z : PrintJobRecord)
              (after : List PrintJobRecord)
              → All P (before ++ z ∷ after)
              → P z
          All-middle P [] z after (p, all) = p
          All-middle P (b ∷ before) z after (p, all) = All-middle P before z after all

length-insert_by_id :
    (precedes : String → String → Bool) (test : PrintJobRecord → Bool) (job : PrintJobRecord)
    (xs : List PrintJobRecord)
    → length (filter test (insert_by_id precedes job xs)) ≡ length (filter test (job ∷ xs))
length-insert_by_id precedes test job [] = refl
length-insert_by_id precedes test job (x ∷ xs) =
    ground (arith, length-insert_by_id precedes test job xs)

-- The order loses no job and repeats none.
pub length-order_by_id :
    (precedes : String → String → Bool) (test : PrintJobRecord → Bool) (jobs : List PrintJobRecord)
    → length (filter test (order_by_id precedes jobs)) ≡ length (filter test jobs)
unfolding order_by_id
length-order_by_id precedes test [] = refl
length-order_by_id precedes test (job ∷ jobs) = ground (
  arith,
  length-insert_by_id precedes test job (order_by_id precedes jobs),
  length-order_by_id precedes test jobs,
)
