-- ===== src/Printing/Admission.antt =====
-- catlabel/printing/admission.py: `DeviceAdmission`. An address is its code points. What counts as a
-- space, and the case folding of Unicode, are the parameter `Unicode`.
pub mod Claims
pub mod Spellings
use catlabel.Prelude.{
  ℕ, zero, suc, ◌%◌, ◌+◌, leb, ◌==◌, ◌&&◌, ◌||◌, Bool, true, false, List, [], ◌∷◌, Option, none,
  some, Result, ok, err, ◌>>=◌, ◌>>◌, raise_if, bytes_eq, if◌then◌else◌,
}

-- `str.isspace` on a character, and `str.casefold`.
pub record Unicode : Type 0 where
  pub is_space : ℕ → Bool
  pub casefold : List ℕ → List ℕ

abbrev pub Address : Type 0
Address = List ℕ

abbrev pub is_hex : ℕ → Bool
is_hex c = leb b'0' c && leb c b'9' || leb b'a' c && leb c b'f'

-- `(?:[0-9a-f]{2}<mark>){5}[0-9a-f]{2}\Z`, with the number of pairs still to come behind a mark.
unfoldable pub is_marked_mac : ℕ → ℕ → Address → Bool
is_marked_mac mark zero (a ∷ b ∷ []) = is_hex a && is_hex b
is_marked_mac mark (suc pairs) (a ∷ b ∷ c ∷ rest) =
    is_hex a && is_hex b && c == mark && is_marked_mac mark pairs rest
is_marked_mac mark _ _ = false

-- `address.replace(mark, "")`
unfoldable pub without : ℕ → Address → Address
without mark [] = []
without mark (c ∷ rest) = let kept = without mark rest in if c == mark then kept else c ∷ kept

abbrev pub compacted : Address → Address
compacted address =
    if is_marked_mac b':' 5 address || is_marked_mac b'-' 5 address
    then without b'-' (without b':' address)
    else address

-- The exceptions: the `ValueError`, `DeviceBusyError` and a `KeyError` of the set.
pub data AdmissionError : Type 0 where
  empty_address : AdmissionError
  device_busy : Address → AdmissionError
  not_claimed : AdmissionError

module _ (unicode : Unicode) where
  unfoldable pub left_stripped : Address → Address
  left_stripped [] = []
  left_stripped (c ∷ rest) =
      let shorter = left_stripped rest in if unicode.is_space c then shorter else c ∷ rest

  unfoldable pub right_stripped : Address → Address
  right_stripped [] = []
  right_stripped (c ∷ rest) = elim (right_stripped rest) [
    | [] ↦ if unicode.is_space c then [] else c ∷ []
    | d ∷ kept ↦ c ∷ d ∷ kept
  ]

  -- `address.strip().casefold()`
  abbrev pub normalized : Address → Address
  normalized address = unicode.casefold (right_stripped (left_stripped address))

  -- The compact spelling is returned as it is, as is any other text.
  unfoldable pub canonical_device_address : Address → Result AdmissionError Address
  unfolding left_stripped right_stripped is_marked_mac without
  canonical_device_address address = elim (normalized address) [
    | [] ↦ err empty_address
    | c ∷ rest ↦ ok (compacted (c ∷ rest))
  ]

-- `x in claimed` and `claimed.remove(x)`, for the set `self._claimed_addresses`; a removal of what
-- is not there is a `KeyError`.
unfoldable pub is_claimed : Address → List Address → Bool
is_claimed a [] = false
is_claimed a (b ∷ claimed) = bytes_eq b a || is_claimed a claimed

unfoldable pub release : Address → List Address → Result AdmissionError (List Address)
release a [] = err not_claimed
release a (b ∷ claimed) =
    let rest = release a claimed in
    if bytes_eq b a then ok claimed else (rest >>= (λ kept. ok (b ∷ kept)))

-- The entry of `claim`, under the lock; `release` is its exit.
unfoldable pub claim :
    Unicode → Address → List Address → Result AdmissionError (Address × List Address)
unfolding canonical_device_address is_claimed
claim unicode address claimed = do
  a ← canonical_device_address unicode address
  raise_if (is_claimed a claimed) (device_busy a)
  ok (a, a ∷ claimed)

-- The addresses that are claimed, and the bodies of `async with` that run, each with its address.
pub record Admission : Type 0 where
  pub claimed_addresses : List Address
  pub bodies : List (ℕ × Address)

-- What the tasks do: one comes to a body, or one leaves a body, by its end, an error or a
-- cancellation.
pub data Event : Type 0 where
  enters : ℕ → Address → Event
  leaves : ℕ → Event

-- The body with an identity, and the others.
unfoldable pub take_body : ℕ → List (ℕ × Address) → Option (Address × List (ℕ × Address))
take_body id [] = none
take_body id ((i, a) ∷ bodies) =
    let later = take_body id bodies in
    if i == id
    then some (a, bodies)
    else elim later [ none ↦ none | some (b, others) ↦ some (b, (i, a) ∷ others) ]

-- A refused claim raises in its own task and changes nothing; an exit that raised would lose the
-- set.
unfoldable pub happens : Unicode → Event → Admission → Result AdmissionError Admission
unfolding claim release take_body
happens unicode (enters id address) s = elim (claim unicode address s.claimed_addresses) [
  | err e ↦ ok s
  | ok (a, claimed) ↦ ok (record { claimed_addresses = claimed; bodies = (id, a) ∷ s.bodies })
]
happens unicode (leaves id) s = elim (take_body id s.bodies) [
  | none ↦ ok s
  | some (a, others) ↦
      release a s.claimed_addresses
      >>= (λ claimed. ok (record { claimed_addresses = claimed; bodies = others }))
]

unfoldable pub happen : Unicode → List Event → Admission → Result AdmissionError Admission
unfolding happens
happen unicode [] s = ok s
happen unicode (event ∷ events) s = do after ← happens unicode event s; happen unicode events after

-- `DeviceAdmission()`
abbrev pub new_admission : Admission
new_admission = record { claimed_addresses = []; bodies = [] }
