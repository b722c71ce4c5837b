-- ===== src/Protocol/Packet/Stream/Seek.antt =====
-- The search of the decoder in catlabel/protocol/packet.py, `find` and `_partial_prefix_length`
-- together: what it leaves of the buffer is the longest end at which the prefix may still begin.
use catlabel.Prelude.{
  ℕ, zero, suc, ◌-◌, ◌≤◌, ◌<◌, min, ◌≡◌, refl, ap, sym, ◌∙◌, Bytes, [], ◌∷◌, ◌++◌, Bool, true,
  false, ◌&&◌, none, some, length, take, drop, bytes_eq, ◌==◌, if◌then◌else◌, arith, Bool-cases,
  inl, inr, Option-cases, drop-length, drop_nil, drop-cons, length-drop, leb, leb→le, get_or, ◌⊎◌,
}
use catlabel.Prelude.Option
use catlabel.Protocol.Packet.Stream.{find, last_bytes, partial_from, partial_prefix_length, trim}

-- The buffer and the prefix agree as far as both go.
pub agree : Bytes → Bytes → Bool
agree [] buffer = true
agree (x ∷ prefix) [] = true
agree (x ∷ prefix) (y ∷ buffer) = x == y && agree prefix buffer

pub seek : Bytes → Bytes → Bytes
seek prefix [] = []
seek prefix (y ∷ buffer) = if agree prefix (y ∷ buffer) then y ∷ buffer else seek prefix buffer

agree-starts :
    (prefix buffer : Bytes)
    → bytes_eq (take (length prefix) buffer) prefix ≡ true
    → (agree prefix buffer ≡ true) × (length prefix ≤ length buffer)
unfolding agree
agree-starts [] buffer h = (refl, omega arith)
agree-starts (x ∷ prefix) [] h = cc
agree-starts (x ∷ prefix) (y ∷ buffer) h = ground (arith, agree-starts prefix buffer)

starts-agree :
    (prefix buffer : Bytes)
    → agree prefix buffer ≡ true
    → length prefix ≤ length buffer
    → bytes_eq (take (length prefix) buffer) prefix ≡ true
unfolding agree
starts-agree [] buffer h k = refl
starts-agree (x ∷ prefix) [] h k = absurd (omega arith)
starts-agree (x ∷ prefix) (y ∷ buffer) h k = ground (arith, starts-agree prefix buffer)

partial-agree :
    (prefix buffer : Bytes)
    → length buffer ≤ length prefix
    → bytes_eq buffer (take (length buffer) prefix) ≡ agree prefix buffer
unfolding agree
partial-agree [] [] h = refl
partial-agree [] (y ∷ buffer) h = absurd (omega arith)
partial-agree (x ∷ prefix) [] h = refl
partial-agree (x ∷ prefix) (y ∷ buffer) h = ground (arith, partial-agree prefix buffer)

agree-append_false :
    (prefix buffer more : Bytes)
    → agree prefix buffer ≡ false
    → agree prefix (buffer ++ more) ≡ false
unfolding agree
agree-append_false [] buffer more h = cc
agree-append_false (x ∷ prefix) [] more h = cc
agree-append_false (x ∷ prefix) (y ∷ buffer) more h =
    ground (arith, agree-append_false prefix buffer more)

-- What the search drops is dropped whatever arrives later.
pub seek-append :
    (prefix buffer more : Bytes)
    → seek prefix (seek prefix buffer ++ more) ≡ seek prefix (buffer ++ more)
unfolding seek
seek-append prefix [] more = refl
seek-append prefix (y ∷ buffer) more = elim (Bool-cases (agree prefix (y ∷ buffer))) [
  | inl e ↦ rw e
  | inr e ↦ rw (e, agree-append_false prefix (y ∷ buffer) more e) (seek-append prefix buffer more)
]

-- The first byte of the buffer begins the prefix, or the prefix is looked for behind it.
find-cons :
    (prefix : Bytes) (y : ℕ) (buffer : Bytes)
    → (find prefix (y ∷ buffer) ≡ some 0)
        × (agree prefix (y ∷ buffer) ≡ true)
        × (length prefix ≤ suc (length buffer))
      ⊎ (find prefix (y ∷ buffer) ≡ Option.map suc (find prefix buffer))
        × (length prefix ≤ suc (length buffer) → agree prefix (y ∷ buffer) ≡ false)
unfolding find
find-cons prefix y buffer =
    elim (Bool-cases (bytes_eq (take (length prefix) (y ∷ buffer)) prefix)) [
      | inl e ↦ let a = agree-starts prefix (y ∷ buffer) e in inl (rw e, a.0, a.1)
      | inr e ↦ inr (rw e, λ h. not_agreed e h (Bool-cases (agree prefix (y ∷ buffer))))
    ]
  where
    not_agreed :
        bytes_eq (take (length prefix) (y ∷ buffer)) prefix ≡ false
        → length prefix ≤ suc (length buffer)
        → (agree prefix (y ∷ buffer) ≡ true) ⊎ (agree prefix (y ∷ buffer) ≡ false)
        → agree prefix (y ∷ buffer) ≡ false
    not_agreed e h (inl a) = cc (starts-agree prefix (y ∷ buffer) a h)
    not_agreed e h (inr a) = a

agree-append_true :
    (prefix buffer more : Bytes)
    → agree prefix buffer ≡ true
    → length prefix ≤ length buffer
    → agree prefix (buffer ++ more) ≡ true
unfolding agree
agree-append_true [] buffer more h k = refl
agree-append_true (x ∷ prefix) [] more h k = absurd (omega arith)
agree-append_true (x ∷ prefix) (y ∷ buffer) more h k =
    ground (arith, agree-append_true prefix buffer more)

-- Once the whole prefix is there, the search stays where it is.
pub seek_found-append :
    (prefix buffer more : Bytes)
    → 1 ≤ length prefix
    → length prefix ≤ length (seek prefix buffer)
    → seek prefix (seek prefix buffer ++ more) ≡ seek prefix buffer ++ more
unfolding seek
seek_found-append prefix [] more h k = absurd (omega arith)
seek_found-append prefix (y ∷ buffer) more h k = elim (Bool-cases (agree prefix (y ∷ buffer))) [
  | inl e ↦
      let long : length prefix ≤ length (y ∷ buffer) = rw e at k in
      rw (e, agree-append_true prefix (y ∷ buffer) more e long)
  | inr e ↦ rw e (seek_found-append prefix buffer more h (rw e at k))
]

find-length :
    (prefix buffer : Bytes) (marker : ℕ)
    → find prefix buffer ≡ some marker
    → length prefix ≤ length buffer
find-length prefix [] marker h = unfold find in cc h
find-length prefix (y ∷ buffer) marker h = elim (find-cons prefix y buffer) [
  | inl here ↦ here.2
  | inr later ↦ elim (Option-cases (find prefix buffer)) [
    | inl f ↦ ground arith
    | inr (m, f) ↦ omega (arith, find-length prefix buffer m f)
  ]
]

-- A marker that is found is where the search by agreement stops, with the whole prefix there.
pub find-seek :
    (prefix buffer : Bytes) (marker : ℕ)
    → find prefix buffer ≡ some marker
    → (drop marker buffer ≡ seek prefix buffer) × (length prefix ≤ length (seek prefix buffer))
unfolding seek
find-seek prefix [] marker h = unfold find in cc h
find-seek prefix (y ∷ buffer) marker h = elim (find-cons prefix y buffer) [
  | inl here ↦ let at_front : marker ≡ 0 = ground arith in rw (at_front, here.1) (refl, here.2)
  | inr later ↦ elim (Option-cases (find prefix buffer)) [
    | inl f ↦ ground arith
    | inr (m, f) ↦
        let at_later : marker ≡ suc m = ground arith in
        rw (at_later, later.1 (omega (arith, find-length prefix buffer m f)))
          (find-seek prefix buffer m f)
  ]
]

-- Where the prefix does not occur, no end that could hold it agrees with it.
find-none-seek :
    (prefix buffer : Bytes) (x : ℕ)
    → find (x ∷ prefix) buffer ≡ none
    → length prefix ≤ length buffer
    → seek (x ∷ prefix) buffer ≡ seek (x ∷ prefix) (drop (length buffer - length prefix) buffer)
unfolding seek
find-none-seek prefix [] x h k = rw (drop_nil (0 - length prefix))
find-none-seek prefix (y ∷ buffer) x h k = elim (Bool-cases (leb (length prefix) (length buffer))) [
  | inl longer ↦ elim (find-cons (x ∷ prefix) y buffer) [
    | inl here ↦ cc (here.0)
    | inr later ↦
        let long : length prefix ≤ length buffer = leb→le _ _ longer in
        let offset : suc (length buffer) - length prefix ≡ suc (length buffer - length prefix) =
          omega arith in
        rw (offset, later.1 (omega arith)) (find-none-seek prefix buffer x (ground arith) long)
  ]
  | inr exact ↦ let offset : suc (length buffer) - length prefix ≡ 0 = ground arith in rw offset
]

seek_stays : (prefix buffer : Bytes) → agree prefix buffer ≡ true → seek prefix buffer ≡ buffer
unfolding seek
seek_stays prefix [] h = refl
seek_stays prefix (y ∷ buffer) h = rw h

seek_skips :
    (prefix : Bytes) (y : ℕ) (buffer : Bytes)
    → agree prefix (y ∷ buffer) ≡ false
    → seek prefix (y ∷ buffer) ≡ seek prefix buffer
unfolding seek
seek_skips prefix y buffer h = rw h

last_bytes-cons :
    (buffer : Bytes) (n : ℕ)
    → suc n ≤ length buffer
    → last_bytes (suc n) buffer ≡ get_or buffer (length buffer - suc n) 0 ∷ last_bytes n buffer
last_bytes-cons buffer n h =
    let next : length buffer - n ≡ suc (length buffer - suc n) = omega arith in
    rw next (drop-cons (length buffer - suc n) buffer 0 (omega arith))

last_bytes-test :
    (prefix buffer : Bytes) (n : ℕ)
    → suc n ≤ length prefix
    → suc n ≤ length buffer
    → bytes_eq (last_bytes (suc n) buffer) (take (suc n) prefix)
      ≡ agree prefix (last_bytes (suc n) buffer)
last_bytes-test prefix buffer n h k =
    let size : length (last_bytes (suc n) buffer) ≡ suc n =
      omega (arith, length-drop (length buffer - suc n) buffer) in
    rw size at (partial-agree prefix (last_bytes (suc n) buffer) (omega arith))

partial_from-seek :
    (prefix buffer : Bytes) (n : ℕ)
    → n ≤ length prefix
    → n ≤ length buffer
    → last_bytes (partial_from n prefix buffer) buffer ≡ seek prefix (last_bytes n buffer)
unfolding seek partial_from
partial_from-seek prefix buffer zero h k = rw (drop-length (length buffer - 0) buffer (omega arith))
partial_from-seek prefix buffer (suc n) h k =
    elim (Bool-cases (agree prefix (last_bytes (suc n) buffer))) [
      | inl e ↦ rw (last_bytes-test prefix buffer n h k, e) (sym (seek_stays prefix _ e))
      | inr e ↦
          rw (last_bytes-test prefix buffer n h k, e)
            (partial_from-seek prefix buffer n (omega arith) (omega arith)
              ∙ sym (
                  rw (last_bytes-cons buffer n k)
                    (seek_skips prefix _ _ (rw (last_bytes-cons buffer n k) at e))))
    ]

pub seek_shorter : (prefix buffer : Bytes) → length (seek prefix buffer) ≤ length buffer
unfolding seek
seek_shorter prefix [] = omega arith
seek_shorter prefix (y ∷ buffer) = ground (arith, seek_shorter prefix buffer)

trim-last_bytes : (n : ℕ) (buffer : Bytes) → trim n buffer ≡ last_bytes n buffer
trim-last_bytes zero buffer = sym (drop-length (length buffer - 0) buffer (omega arith))
trim-last_bytes (suc n) buffer = ground arith

-- The ends that `_partial_prefix_length` tries are enough.
seek-last_bytes :
    (x : ℕ) (prefix buffer : Bytes)
    → find (x ∷ prefix) buffer ≡ none
    → seek (x ∷ prefix) (last_bytes (min (length buffer) (length prefix)) buffer)
      ≡ seek (x ∷ prefix) buffer
seek-last_bytes x prefix buffer e = elim (Bool-cases (leb (length prefix) (length buffer))) [
  | inl long ↦
      let size : min (length buffer) (length prefix) ≡ length prefix = ground arith in
      rw size (sym (find-none-seek prefix buffer x e (leb→le _ _ long)))
  | inr short ↦
      let size : length buffer - min (length buffer) (length prefix) ≡ 0 = ground arith in rw size
]

-- A buffer without the whole prefix is cut down to the end that may still begin it.
pub trim-seek :
    (prefix buffer : Bytes)
    → 1 ≤ length prefix
    → find prefix buffer ≡ none
    → (trim (partial_prefix_length prefix buffer) buffer ≡ seek prefix buffer)
      × (length (seek prefix buffer) < length prefix)
unfolding partial_prefix_length
trim-seek [] buffer h e = absurd (omega arith)
trim-seek (x ∷ prefix) buffer h e =
    let n = min (length buffer) (length prefix) in
    let limit : suc (length prefix) - 1 ≡ length prefix = omega arith in
    let same = seek-last_bytes x prefix buffer e in
    (
      rw (limit, trim-last_bytes (partial_from n (x ∷ prefix) buffer) buffer)
          (partial_from-seek (x ∷ prefix) buffer n (omega arith) (omega arith) ∙ same),
      omega (
        arith,
        ap length same,
        seek_shorter (x ∷ prefix) (last_bytes n buffer),
        length-drop (length buffer - n) buffer,
      ),
    )
