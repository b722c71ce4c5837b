-- ===== src/Printing/Spool/Matchers.antt =====
-- The identifiers that an append to the spool of catlabel/printing/job_spool.py gives to the reply
-- matchers of its steps.
use catlabel.Prelude.{
  ℕ, ◌+◌, ◌≤◌, ◌≡◌, refl, ap, sym, ◌∙◌, List, [], ◌∷◌, ◌++◌, Option, none, some, ok, ◌==◌, ==_iff,
  arith, Bool-cases, Option-cases, inl, inr, subst,
}
use catlabel.Printing.Spool.{
  Spool, Pending, update, install, pending_id, known_id, assign, restore_matcher,
}
use catlabel.Printing.Spool.Reading.{Extends}

pub install-append :
    (pending : List (ℕ × ℕ)) (id matcher : ℕ) (table : ℕ → Option ℕ)
    → install (pending ++ (id, matcher) ∷ []) table ≡ update (install pending table) id matcher
unfolding install
install-append [] id matcher table = refl
install-append ((i, m) ∷ pending) id matcher table =
    install-append pending id matcher (update table i m)

-- A pending matcher more.
abbrev added : Pending → ℕ → Pending
added p matcher = record {
  matchers = p.matchers ++ (p.next_id, matcher) ∷ [];
  next_id = p.next_id + 1;
}

module _ (s : Spool) where
  -- The table of matchers with the pending ones.
  abbrev pub grown : Pending → ℕ → Option ℕ
  grown p = install p.matchers s.reply_matchers

  -- The pending matchers are found under their identifiers, and the next identifier is free.
  pub record Consistent (p : Pending) : Type 0 where
    pub found :
        (matcher id : ℕ) → pending_id matcher p.matchers ≡ some id → grown p id ≡ some matcher
    pub free : (id : ℕ) → p.next_id ≤ id → grown p id ≡ none
    pub kept : Extends s.reply_matchers (grown p)

  Extends-new :
      (p : Pending) (matcher : ℕ) → Consistent p → Extends (grown p) (grown (added p matcher))
  Extends-new p matcher c id m e =
      rw (install-append p.matchers p.next_id matcher s.reply_matchers)
        (ground (arith, c.free id, e))

  pending_id-append :
      (pending : List (ℕ × ℕ)) (id matcher m i : ℕ)
      → pending_id m pending ≡ none
      → pending_id m (pending ++ (id, matcher) ∷ []) ≡ some i
      → (matcher ≡ m) × (id ≡ i)
  pending_id-append [] id matcher m i h e = ground arith
  pending_id-append ((j, n) ∷ pending) id matcher m i h e = elim (Bool-cases (n == m)) [
    | inl f ↦ cc (rw f at h)
    | inr f ↦ pending_id-append pending id matcher m i (rw f at h) (rw f at e)
  ]

  pending_id-append_found :
      (pending : List (ℕ × ℕ)) (id matcher m i : ℕ)
      → pending_id m pending ≡ some i
      → pending_id m (pending ++ (id, matcher) ∷ []) ≡ some i
  pending_id-append_found [] id matcher m i h = cc
  pending_id-append_found ((j, n) ∷ pending) id matcher m i h = elim (Bool-cases (n == m)) [
    | inl f ↦ rw f (rw f at h)
    | inr f ↦ rw f (pending_id-append_found pending id matcher m i (rw f at h))
  ]

  Consistent-new : (p : Pending) (matcher : ℕ) → Consistent p → Consistent (added p matcher)
  Consistent-new p matcher c =
      let grows = Extends-new p matcher c in
      record {
        found = λ m id e. elim (Option-cases (pending_id m p.matchers)) [
          | inr (i, f) ↦
              let same : some i ≡ some id =
                sym (pending_id-append_found p.matchers p.next_id matcher m i f) ∙ e in
              grows id m (c.found m id (f ∙ same))
          | inl f ↦
              let (is_matcher, is_next) = pending_id-append p.matchers p.next_id matcher m id f e in
              rw (install-append p.matchers p.next_id matcher s.reply_matchers, is_matcher, is_next)
                (ground arith)
        ];
        free = λ id h.
            rw (install-append p.matchers p.next_id matcher s.reply_matchers)
              (ground (arith, c.free id));
        kept = λ id m e. grows id m (c.kept id m e);
      }

  -- What one step's matcher does.
  pub record Assigned (matcher : Option ℕ) (p : Pending) (id : Option ℕ) (q : Pending)
      : Type 0 where
    pub consistent : Consistent q
    pub grows : Extends (grown p) (grown q)
    pub restored : restore_matcher (grown q) id ≡ ok matcher

  restore_known :
      (table : ℕ → Option ℕ) (id matcher : ℕ)
      → table id ≡ some matcher
      → restore_matcher table (some id) ≡ ok (some matcher)
  restore_known table id matcher e = rw (restore_matcher, e) refl

  known_id-found :
      (matcher id : ℕ) → known_id s matcher ≡ some id → s.reply_matchers id ≡ some matcher
  known_id-found matcher id e = elim (Option-cases (s.matcher_ids matcher)) [
    | inl f ↦ cc (rw (known_id, f) at e)
    | inr (i, f) ↦ elim (Option-cases (s.reply_matchers i)) [
      | inl g ↦ cc (rw (known_id, f, g) at e)
      | inr (m, g) ↦ elim (Bool-cases (m == matcher)) [
        | inl k ↦
            let same : i ≡ id = cc (rw (known_id, f, g, k) at e) in
            let named : m ≡ matcher = (==_iff m matcher).0 k in
            subst (λ n. s.reply_matchers n ≡ some matcher) same (g ∙ ap some named)
        | inr k ↦ cc (rw (known_id, f, g, k) at e)
      ]
    ]
  ]

  pub assign-Assigned :
      (matcher : Option ℕ) (p : Pending)
      → Consistent p
      → Assigned matcher p (assign s matcher p).0 (assign s matcher p).1
  unfolding assign
  assign-Assigned none p c = record { consistent = c; grows = λ id m e. e; restored = refl }
  assign-Assigned (some matcher) p c = elim (Option-cases (known_id s matcher)) [
    | inr (id, f) ↦
        rw (assign, f)
          (record {
            consistent = c;
            grows = λ i m e. e;
            restored =
                restore_known (grown p) id matcher
                  (c.kept id matcher (known_id-found matcher id f));
          })
    | inl f ↦ elim (Option-cases (pending_id matcher p.matchers)) [
      | inr (id, g) ↦
          rw (assign, f, g)
            (record {
              consistent = c;
              grows = λ i m e. e;
              restored = restore_known (grown p) id matcher (c.found matcher id g);
            })
      | inl g ↦
          rw (assign, f, g)
            (record {
              consistent = Consistent-new p matcher c;
              grows = Extends-new p matcher c;
              restored = restore_known (grown (added p matcher)) p.next_id matcher (
                  rw (install-append p.matchers p.next_id matcher s.reply_matchers) (ground arith));
            })
    ]
  ]
