-- ===== src/Printing/Admission/Claims.antt =====
-- The claims of catlabel/printing/admission.py over a history of tasks.
use catlabel.Prelude.{
  ℕ, ◌==◌, ◌≡◌, refl, ap, sym, ◌∙◌, List, [], ◌∷◌, Bool, true, false, Option, none, some, ok,
  raise_if, map, bytes_eq, if◌then◌else◌, Bool-cases, Option-cases, Result-cases, inl, inr,
  bytes_eq→eq, bytes_eq_refl, subst, >>=-eq-ok, ok-injective, arith,
}
use catlabel.Printing.Admission.{
  Unicode, Address, AdmissionError, device_busy, Admission, Event, enters, leaves, is_claimed,
  release, claim, take_body, canonical_device_address, happens, happen, new_admission,
}

-- No two of them are the same.
abbrev pub AllDistinct : List Address → Type 0
AllDistinct [] = Unit
AllDistinct (a ∷ rest) = (is_claimed a rest ≡ false) × AllDistinct rest

-- The set has the address of each running body, once.
pub record IsExclusive (s : Admission) : Type 0 where
  pub held : s.claimed_addresses ≡ map (λ body. body.1) s.bodies
  pub distinct : AllDistinct s.claimed_addresses

abbrev pub addresses : List (ℕ × Address) → List Address
addresses bodies = map (λ body. body.1) bodies

-- How a body is found: it comes first, or behind one of another identity.
data Taken (id : ℕ) : List (ℕ × Address) → Address → List (ℕ × Address) → Type 0 where
  first : (i : ℕ) (a : Address) (bodies : List (ℕ × Address)) → Taken id ((i, a) ∷ bodies) a bodies
  later :
      (i : ℕ) (b a : Address) (bodies others : List (ℕ × Address))
      → Taken id bodies a others
      → Taken id ((i, b) ∷ bodies) a ((i, b) ∷ others)

take_body-Taken :
    (id : ℕ) (bodies : List (ℕ × Address)) (a : Address) (others : List (ℕ × Address))
    → take_body id bodies ≡ some (a, others)
    → Taken id bodies a others
unfolding take_body
take_body-Taken id [] a others h = cc
take_body-Taken id ((i, b) ∷ bodies) a others h =
    by_test (take_body-Taken id bodies) (i == id) (take_body id bodies) (a, others) refl h
  where
    by_test :
        ((c : Address) (rest : List (ℕ × Address))
          → take_body id bodies ≡ some (c, rest)
          → Taken id bodies c rest)
        → (same : Bool) (found : Option (Address × List (ℕ × Address)))
          (wanted : Address × List (ℕ × Address))
        → take_body id bodies ≡ found
        → if◌then◌else◌ {A = Option (Address × List (ℕ × Address))} same
            (some (b, bodies))
            (elim found [ none ↦ none | some (c, rest) ↦ some (c, (i, b) ∷ rest) ])
          ≡ some wanted
        → Taken id ((i, b) ∷ bodies) wanted.0 wanted.1
    by_test taken true found wanted e h =
        let same : (b, bodies) ≡ wanted = cc in
        subst (λ pair. Taken id ((i, b) ∷ bodies) pair.0 pair.1) same (first i b bodies)
    by_test taken false none wanted e h = cc
    by_test taken false (some (c, rest)) wanted e h =
        let same : (c, (i, b) ∷ rest) ≡ wanted = cc in
        subst (λ pair. Taken id ((i, b) ∷ bodies) pair.0 pair.1) same
          (later i b c bodies rest (taken c rest e))

Taken-is_claimed :
    (id : ℕ) (bodies : List (ℕ × Address)) (a : Address) (others : List (ℕ × Address))
    → Taken id bodies a others
    → is_claimed a (addresses bodies) ≡ true
unfolding is_claimed
Taken-is_claimed id _ _ _ (first i a bodies) = rw (bytes_eq_refl a) refl
Taken-is_claimed id _ _ _ (later i b a rest left taken) =
    ground (arith, Taken-is_claimed id rest a left taken)

still_free :
    (id : ℕ) (x : Address) (bodies : List (ℕ × Address)) (a : Address) (others : List (ℕ × Address))
    → Taken id bodies a others
    → is_claimed x (addresses bodies) ≡ false
    → is_claimed x (addresses others) ≡ false
unfolding is_claimed
still_free id x _ _ _ (first i a bodies) h = ground arith
still_free id x _ _ _ (later i b a rest left taken) h =
    ground (arith, still_free id x rest a left taken)

-- What an exit leaves: the set without the address of the body, which is there.
release-Taken :
    (id : ℕ) (bodies : List (ℕ × Address)) (a : Address) (others : List (ℕ × Address))
    → Taken id bodies a others
    → AllDistinct (addresses bodies)
    → (release a (addresses bodies) ≡ ok (addresses others)) × AllDistinct (addresses others)
unfolding is_claimed release
release-Taken id _ _ _ (first i a bodies) (fresh, distinct) = (rw (bytes_eq_refl a) refl, distinct)
release-Taken id _ _ _ (later i b a rest left taken) (fresh, distinct) =
    let (released, still) = release-Taken id rest a left taken distinct in
    elim (Bool-cases (bytes_eq b a)) [
      | inl same ↦
          let clash : is_claimed a (addresses rest) ≡ false =
            subst (λ x. is_claimed x (addresses rest) ≡ false) (bytes_eq→eq b a same) fresh in
          cc (clash, Taken-is_claimed id rest a left taken)
      | inr other ↦ (rw (other, released) refl, (still_free id b rest a left taken fresh, still))
    ]

raise_if-eq_ok : (test : Bool) (e : AdmissionError) → raise_if test e ≡ ok tt → test ≡ false
raise_if-eq_ok true e h = cc
raise_if-eq_ok false e h = refl

-- A claim that succeeds adds an address that was free.
claim-eq_ok :
    (unicode : Unicode) (address : Address) (claimed : List Address) (a : Address)
    (after : List Address)
    → claim unicode address claimed ≡ ok (a, after)
    → (after ≡ a ∷ claimed) × (is_claimed a claimed ≡ false)
unfolding claim
claim-eq_ok unicode address claimed a after h =
    let (b, canonical, rest) = >>=-eq-ok (canonical_device_address unicode address) _ h in
    let (done, free, last) = >>=-eq-ok (raise_if (is_claimed b claimed) (device_busy b)) _ rest in
    let same : (b, b ∷ claimed) ≡ (a, after) = ok-injective last in
    subst (λ pair. (pair.1 ≡ pair.0 ∷ claimed) × (is_claimed pair.0 claimed ≡ false)) same
      (refl, raise_if-eq_ok (is_claimed b claimed) (device_busy b) free)

happens-IsExclusive :
    (unicode : Unicode) (event : Event) (s : Admission)
    → IsExclusive s
    → (after : Admission) × (happens unicode event s ≡ ok after) × IsExclusive after
unfolding happens claim
happens-IsExclusive unicode (enters id address) s x =
    elim (Result-cases (claim unicode address s.claimed_addresses)) [
      | inr (e, h) ↦ (s, rw (h, happens) refl, x)
      | inl ((a, claimed), h) ↦
          let (grown, fresh) = claim-eq_ok unicode address s.claimed_addresses a claimed h in
          (
            record { claimed_addresses = claimed; bodies = (id, a) ∷ s.bodies },
            rw (h, happens) refl,
            record {
              held = grown ∙ ap (λ t. a ∷ t) x.held;
              distinct = subst AllDistinct (sym grown) (fresh, x.distinct);
            },
          )
    ]
happens-IsExclusive unicode (leaves id) s x = elim (Option-cases (take_body id s.bodies)) [
  | inl e ↦ (s, rw (e, happens) refl, x)
  | inr ((a, others), e) ↦
      let (released, still) =
        release-Taken id s.bodies a others (take_body-Taken id s.bodies a others e)
          (subst AllDistinct x.held x.distinct) in
      (
        record { claimed_addresses = addresses others; bodies = others },
        rw (e, x.held, released, happens) refl,
        record { held = refl; distinct = still },
      )
]

happen-IsExclusive :
    (unicode : Unicode) (events : List Event) (s : Admission)
    → IsExclusive s
    → (after : Admission) × (happen unicode events s ≡ ok after) × IsExclusive after
unfolding happen
happen-IsExclusive unicode [] s x = (s, refl, x)
happen-IsExclusive unicode (event ∷ events) s x =
    let (next, e, y) = happens-IsExclusive unicode event s x in
    let (after, f, z) = happen-IsExclusive unicode events next y in (after, rw e f, z)

-- Whatever the tasks do, in any order, no exit raises, and the set holds the address of each body
-- that runs and no other: two bodies never have the same printer.
pub claims-IsExclusive :
    (unicode : Unicode) (events : List Event)
    → (s : Admission) × (happen unicode events new_admission ≡ ok s) × IsExclusive s
claims-IsExclusive unicode events =
    happen-IsExclusive unicode events new_admission (record { held = refl; distinct = tt })
