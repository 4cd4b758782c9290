-- ===== src/Pmtiles/Mvt/Message.antt =====
-- A reader of protocol buffer messages, written from the format's description: what the encoder of
-- crates/raster-h3-core/src/pmtiles/mvt.rs writes is read with it.
use raster_h.Common.{
  ℕ, zero, suc, ◌+◌, ◌*◌, ◌/◌, ◌%◌, ◌^◌, ◌≤◌, ◌<◌, ◌≡◌, refl, ap, sym, ◌∙◌, Option, none, some,
  List, [], ◌∷◌, ◌++◌, append_assoc, true, length, length-append, take, drop, take-append,
  drop-append, All, leb, ◌==◌, if◌then◌else◌, arith,
}
use raster_h.Common.Bytes.{to_le_bytes, from_le_bytes, from_le_bytes-u32, from_le_bytes-u64}
use raster_h.Pmtiles.Varint.{write_varint, read_varint, read_varint-write_varint, write_varint-cons}

-- A field: its number with a varint, eight bytes, a length and that many bytes, or four bytes.
pub data Field : Type 0 where
  varint_field : ℕ → ℕ → Field
  fixed64_field : ℕ → ℕ → Field
  bytes_field : ℕ → List ℕ → Field
  fixed32_field : ℕ → ℕ → Field

unfoldable pub field_bytes : Field → List ℕ
field_bytes (varint_field n v) = write_varint (n * 8 + 0) ++ write_varint v
field_bytes (fixed64_field n v) = write_varint (n * 8 + 1) ++ to_le_bytes 8 v
field_bytes (bytes_field n bs) = write_varint (n * 8 + 2) ++ (write_varint (length bs) ++ bs)
field_bytes (fixed32_field n v) = write_varint (n * 8 + 5) ++ to_le_bytes 4 v

abbrev pub fields_bytes : List Field → List ℕ
fields_bytes [] = []
fields_bytes (f ∷ fs) = field_bytes f ++ fields_bytes fs

-- Numbers of fields take 29 bits, varints and lengths 64.
abbrev pub IsField : Field → Type 0
IsField (varint_field n v) = (n < 2 ^ 29) × (v < 2 ^ 64)
IsField (fixed64_field n v) = (n < 2 ^ 29) × (v < 2 ^ 64)
IsField (bytes_field n bs) = n < 2 ^ 29
IsField (fixed32_field n v) = (n < 2 ^ 29) × (v < 2 ^ 32)

cons_append :
    {xs : List ℕ}
    → ((b : ℕ) × (bs : List ℕ) × (xs ≡ b ∷ bs))
    → (ys : List ℕ) → (b : ℕ) × (bs : List ℕ) × (xs ++ ys ≡ b ∷ bs)
cons_append (b, bs, e) ys = (b, bs ++ ys, ap (λ t. t ++ ys) e)

-- `k` bytes, and what follows them.
unfoldable pub split : ℕ → List ℕ → Option (List ℕ × List ℕ)
split k bs = if leb k (length bs) then some (take k bs, drop k bs) else none

unfoldable pub read_payload : ℕ → ℕ → List ℕ → Option (Field × List ℕ)
read_payload n w bs =
    if w == 0
    then elim (read_varint bs) [ none ↦ none | some (v, rest) ↦ some (varint_field n v, rest) ]
    else if w == 1
    then elim (split 8 bs) [
      | none ↦ none
      | some (v, rest) ↦ some (fixed64_field n (from_le_bytes v), rest)
    ]
    else if w == 2
    then elim (read_varint bs) [
      | none ↦ none
      | some (k, more) ↦ elim (split k more) [
        | none ↦ none
        | some (body, rest) ↦ some (bytes_field n body, rest)
      ]
    ]
    else if w == 5
    then elim (split 4 bs) [
      | none ↦ none
      | some (v, rest) ↦ some (fixed32_field n (from_le_bytes v), rest)
    ]
    else none

unfoldable pub read_field : List ℕ → Option (Field × List ℕ)
read_field bs = elim (read_varint bs) [
  | none ↦ none
  | some (tag, rest) ↦ read_payload (tag / 8) (tag % 8) rest
]

-- Every field takes a byte at least, so as many rounds as bytes are enough.
unfoldable pub read_fields : ℕ → List ℕ → Option (List Field)
read_fields fuel [] = some []
read_fields zero (b ∷ bs) = none
read_fields (suc fuel) (b ∷ bs) = elim (read_field (b ∷ bs)) [
  | none ↦ none
  | some (f, rest) ↦ elim (read_fields fuel rest) [ none ↦ none | some fs ↦ some (f ∷ fs) ]
]

abbrev pub read_message : List ℕ → Option (List Field)
read_message bs = read_fields (length bs) bs

pub split-append :
    (k : ℕ) (bs rest : List ℕ) → length bs ≡ k → split k (bs ++ rest) ≡ some (bs, rest)
unfolding split
split-append k bs rest h =
    rw (sym h, fits, take-append bs rest)
      (ap (λ t. some (bs, t)) (ap (λ j. drop j (bs ++ rest)) zero_right ∙ drop-append 0 bs rest))
  where
    fits : leb (length bs) (length (bs ++ rest)) ≡ true
    fits = rw (length-append bs rest) (ground arith)

    zero_right : length bs ≡ length bs + 0
    zero_right = omega arith

payload :
    (n w : ℕ) (more rest : List ℕ) (f : Field)
    → n < 2 ^ 29
    → w < 8
    → read_payload n w (more ++ rest) ≡ some (f, rest)
    → read_field ((write_varint (n * 8 + w) ++ more) ++ rest) ≡ some (f, rest)
unfolding read_field
payload n w more rest f hn hw h =
    rw
      (
        append_assoc (write_varint (n * 8 + w)) more rest,
        read_field,
        read_varint-write_varint (n * 8 + w) (more ++ rest) (omega arith),
        number,
        kind,
      )
      h
  where
    number : (n * 8 + w) / 8 ≡ n
    number = omega arith

    kind : (n * 8 + w) % 8 ≡ w
    kind = omega arith

pub read_field-field_bytes :
    (f : Field) (rest : List ℕ)
    → IsField f
    → length (field_bytes f) < 2 ^ 64
    → read_field (field_bytes f ++ rest) ≡ some (f, rest)
unfolding field_bytes
read_field-field_bytes (varint_field n v) rest h small =
    payload n 0 (write_varint v) rest (varint_field n v) h.0 (omega arith)
      (unfold read_payload in rw (read_varint-write_varint v rest h.1) refl)
read_field-field_bytes (fixed64_field n v) rest h small =
    payload n 1 (to_le_bytes 8 v) rest (fixed64_field n v) h.0 (omega arith) (
      unfold read_payload in
      rw (split-append 8 (to_le_bytes 8 v) rest refl, from_le_bytes-u64 v h.1) refl)
read_field-field_bytes (bytes_field n bs) rest h small =
    payload n 2 (write_varint (length bs) ++ bs) rest (bytes_field n bs) h (omega arith) (
      unfold read_payload in
      rw
        (
          append_assoc (write_varint (length bs)) bs rest,
          read_varint-write_varint (length bs) (bs ++ rest) within,
          split-append (length bs) bs rest refl,
        )
        refl)
  where
    within : length bs < 2 ^ 64
    within = omega (
      arith,
      length-append (write_varint (n * 8 + 2)) (write_varint (length bs) ++ bs),
      length-append (write_varint (length bs)) bs,
      small,
    )
read_field-field_bytes (fixed32_field n v) rest h small =
    payload n 5 (to_le_bytes 4 v) rest (fixed32_field n v) h.0 (omega arith) (
      unfold read_payload in
      rw (split-append 4 (to_le_bytes 4 v) rest refl, from_le_bytes-u32 v h.1) refl)

field_bytes-cons : (f : Field) → (b : ℕ) × (bs : List ℕ) × (field_bytes f ≡ b ∷ bs)
unfolding field_bytes
field_bytes-cons (varint_field n v) = cons_append (write_varint-cons (n * 8 + 0)) (write_varint v)
field_bytes-cons (fixed64_field n v) = cons_append (write_varint-cons (n * 8 + 1)) (to_le_bytes 8 v)
field_bytes-cons (bytes_field n bs) =
    cons_append (write_varint-cons (n * 8 + 2)) (write_varint (length bs) ++ bs)
field_bytes-cons (fixed32_field n v) = cons_append (write_varint-cons (n * 8 + 5)) (to_le_bytes 4 v)

read_fields-step :
    (fuel : ℕ) (bs : List ℕ) (f : Field) (rest : List ℕ) (fs : List Field)
    → ((b : ℕ) × (more : List ℕ) × (bs ≡ b ∷ more))
    → read_field bs ≡ some (f, rest)
    → read_fields fuel rest ≡ some fs
    → read_fields (suc fuel) bs ≡ some (f ∷ fs)
unfolding read_fields
read_fields-step fuel [] f rest fs (b, more, e) h k = cc
read_fields-step fuel (c ∷ bs) f rest fs shape h k = rw (read_fields, h, k) refl

read_fields-enough :
    (fuel : ℕ) (fs : List Field)
    → All IsField fs
    → length (fields_bytes fs) < 2 ^ 64
    → length (fields_bytes fs) ≤ fuel
    → read_fields fuel (fields_bytes fs) ≡ some fs
unfolding read_fields
read_fields-enough zero [] h small enough = refl
read_fields-enough (suc fuel) [] h small enough = refl
read_fields-enough zero (f ∷ fs) h small enough =
    let (b, bs, e) = field_bytes-cons f in
    absurd (omega (arith, length-append (field_bytes f) (fields_bytes fs), ap length e))
read_fields-enough (suc fuel) (f ∷ fs) h small enough =
    let (b, bs, e) = field_bytes-cons f in
    let sum = length-append (field_bytes f) (fields_bytes fs) in
    let one = ap length e in
    read_fields-step fuel (field_bytes f ++ fields_bytes fs) f (fields_bytes fs) fs
      (cons_append (field_bytes-cons f) (fields_bytes fs))
      (read_field-field_bytes f (fields_bytes fs) h.0 (omega arith))
      (read_fields-enough fuel fs h.1 (omega arith) (omega arith))

-- Reading the bytes of a list of fields gives the fields.
pub read_message-fields_bytes :
    (fs : List Field)
    → All IsField fs
    → length (fields_bytes fs) < 2 ^ 64
    → read_message (fields_bytes fs) ≡ some fs
read_message-fields_bytes fs h small =
    read_fields-enough (length (fields_bytes fs)) fs h small (omega arith)

pub fields_bytes-append :
    (fs gs : List Field) → fields_bytes (fs ++ gs) ≡ fields_bytes fs ++ fields_bytes gs
fields_bytes-append [] gs = refl
fields_bytes-append (f ∷ fs) gs =
    ap (λ t. field_bytes f ++ t) (fields_bytes-append fs gs)
    ∙ sym (append_assoc (field_bytes f) (fields_bytes fs) (fields_bytes gs))
