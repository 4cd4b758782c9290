-- ===== src/Pmtiles/Mvt/Decoded.antt =====
-- What a reader of the format makes of a value that `MvtValue::write_to` of
-- crates/raster-h3-core/src/pmtiles/mvt.rs wrote.
use raster_h.Columnar.Utf8.{from_utf8}
use raster_h.Common.{
  ℕ, ◌^◌, ◌≤◌, ◌<◌, ◌≡◌, refl, ap, sym, subst, ◌∙◌, append-nil, append_assoc, leb, Bool, true,
  false, ◌&&◌, Option, none, some, List, [], ◌∷◌, length, take, ◌==◌, if◌then◌else◌, arith,
  Bool-cases, ==_iff, length-take, ◌↔◌, inl, inr,
}
use raster_h.Common.Bytes.{i64_bits, i64_of_bits, i64_of_bits-i64_bits, i64_bits-lt}
use raster_h.Common.Eq.{nat_has_eq, list_beq, eqb_ℤ_iff, list_beq_iff}
use raster_h.Common.Int.{ℤ}
use raster_h.Pmtiles.Mvt.Message.{
  Field, varint_field, bytes_field, fixed32_field, fixed64_field, field_bytes, IsField,
  read_message, read_message-fields_bytes,
}
use raster_h.Pmtiles.Varint.{write_varint}
use raster_h.Pmtiles.Mvt.Value.{
  MvtValue, string, hex_str, float, double, int, uint, bool, IsValue, write_to, value_eq,
  write_string_field, write_tag, bool_beq,
}

-- The one field of the message of a value.
unfoldable pub value_field : MvtValue → Field
value_field (string s) = bytes_field 1 s
value_field (hex_str bytes len) = bytes_field 1 (take len bytes)
value_field (float f) = fixed32_field 2 f
value_field (double d) = fixed64_field 3 d
value_field (int i) = varint_field 4 (i64_bits i)
value_field (uint u) = varint_field 5 u
value_field (bool b) = varint_field 7 (if b then 1 else 0)

-- What a reader of the format takes a value for, read from the message's one field.
pub data Decoded : Type 0 where
  text : List ℕ → Decoded
  float32 : ℕ → Decoded
  float64 : ℕ → Decoded
  signed : ℤ → Decoded
  unsigned : ℕ → Decoded
  truth : Bool → Decoded

unfoldable pub decoded_field : Field → Option Decoded
decoded_field (bytes_field n bs) = if n == 1 then some (text bs) else none
decoded_field (fixed32_field n v) = if n == 2 then some (float32 v) else none
decoded_field (fixed64_field n v) = if n == 3 then some (float64 v) else none
decoded_field (varint_field n v) =
    if n == 4
    then some (signed (i64_of_bits v))
    else if n == 5
    then some (unsigned v)
    else if n == 7
    then some (truth (leb 1 v))
    else none

unfoldable pub read_value : List ℕ → Option Decoded
read_value bytes = elim (read_message bytes) [
  | none ↦ none
  | some [] ↦ none
  | some (f ∷ []) ↦ decoded_field f
  | some (f ∷ g ∷ fs) ↦ none
]

unfoldable pub meaning : MvtValue → Decoded
meaning (string s) = text s
meaning (hex_str bytes len) = text (take len bytes)
meaning (float f) = float32 f
meaning (double d) = float64 d
meaning (int i) = signed i
meaning (uint u) = unsigned u
meaning (bool b) = truth b

pub write_to-value_field : (v : MvtValue) → IsValue v → write_to v ≡ field_bytes (value_field v)
unfolding write_to value_field field_bytes write_string_field write_tag from_utf8
write_to-value_field (string s) h = append_assoc (write_tag 1 2) (write_varint (length s)) s
write_to-value_field (hex_str bytes len) (a, b, c) =
    rw (write_to, from_utf8, c)
      (append_assoc (write_tag 1 2) (write_varint (length (take len bytes))) (take len bytes))
write_to-value_field (float f) h = refl
write_to-value_field (double d) h = refl
write_to-value_field (int i) h = refl
write_to-value_field (uint u) h = refl
write_to-value_field (bool b) h = refl

value_field-IsField : (v : MvtValue) → IsValue v → IsField (value_field v)
unfolding value_field
value_field-IsField (string s) h = omega arith
value_field-IsField (hex_str bytes len) h = omega arith
value_field-IsField (float f) h = (omega arith, h)
value_field-IsField (double d) h = (omega arith, h)
value_field-IsField (int i) h = (omega arith, i64_bits-lt i)
value_field-IsField (uint u) h = (omega arith, h)
value_field-IsField (bool true) h = (omega arith, omega arith)
value_field-IsField (bool false) h = (omega arith, omega arith)

decoded_field-value_field :
    (v : MvtValue) → IsValue v → decoded_field (value_field v) ≡ some (meaning v)
unfolding decoded_field value_field meaning
decoded_field-value_field (string s) h = refl
decoded_field-value_field (hex_str bytes len) h = refl
decoded_field-value_field (float f) h = refl
decoded_field-value_field (double d) h = refl
decoded_field-value_field (int i) h = ap (λ z. some (signed z)) (i64_of_bits-i64_bits i h)
decoded_field-value_field (uint u) h = refl
decoded_field-value_field (bool true) h = refl
decoded_field-value_field (bool false) h = refl

-- The message of a value, read, is what the value means.
pub read_value-write_to :
    (v : MvtValue)
    → IsValue v
    → length (write_to v) < 2 ^ 64
    → read_value (write_to v) ≡ some (meaning v)
unfolding read_value
read_value-write_to v h small =
    let one = write_to-value_field v h ∙ sym (append-nil (field_bytes (value_field v))) in
    rw
      (
        one,
        read_value,
        read_message-fields_bytes (value_field v ∷ []) (value_field-IsField v h, tt)
            (subst (λ t. length t < 2 ^ 64) one small),
      )
      (decoded_field-value_field v h)

through :
    {A : Type 0} {x y : A} {q : Bool} (f : A → Decoded)
    → (f x ≡ f y → x ≡ y)
    → ((q ≡ true) ↔ (x ≡ y))
    → (q ≡ true) ↔ (f x ≡ f y)
through f back (to, from) = (λ h. ap f (to h), λ h. from (back h))

same_slices :
    (a b : List ℕ) (len_a len_b : ℕ)
    → len_a ≤ length a
    → len_b ≤ length b
    → (((len_a == len_b) && list_beq (take len_a a) (take len_b b)) ≡ true)
      ↔ (take len_a a ≡ take len_b b)
same_slices a b len_a len_b p q = elim (Bool-cases (len_a == len_b)) [
  | inl same ↦ rw same (list_beq_iff (take len_a a) (take len_b b))
  | inr other ↦ rw other (
    λ h. cc,
    λ h.
        absurd (ground (arith, other, p, q, ap length h, length-take len_a a, length-take len_b b)),
  )
]

-- Two proper values are equal for the table of values exactly when they mean the same to a reader.
pub value_eq_iff :
    (a b : MvtValue) → IsValue a → IsValue b → (value_eq a b ≡ true) ↔ (meaning a ≡ meaning b)
unfolding value_eq meaning bool_beq
value_eq_iff (string a) (string b) p q = through text (λ h. cc) (list_beq_iff a b)
value_eq_iff (hex_str a len_a) (hex_str b len_b) (p, r, _) (q, s, _) =
    through text (λ h. cc) (same_slices a b len_a len_b (omega arith) (omega arith))
value_eq_iff (string a) (hex_str b len_b) p q =
    through text (λ h. cc) (list_beq_iff a (take len_b b))
value_eq_iff (hex_str a len_a) (string b) p q =
    through text (λ h. cc) (list_beq_iff (take len_a a) b)
value_eq_iff (float a) (float b) p q = through float32 (λ h. cc) (==_iff a b)
value_eq_iff (double a) (double b) p q = through float64 (λ h. cc) (==_iff a b)
value_eq_iff (int a) (int b) p q = through signed (λ h. cc) (eqb_ℤ_iff a b)
value_eq_iff (uint a) (uint b) p q = through unsigned (λ h. cc) (==_iff a b)
value_eq_iff (bool true) (bool true) p q = (λ h. refl, λ h. refl)
value_eq_iff (bool true) (bool false) p q = (λ h. cc, λ h. cc)
value_eq_iff (bool false) (bool true) p q = (λ h. cc, λ h. cc)
value_eq_iff (bool false) (bool false) p q = (λ h. refl, λ h. refl)
value_eq_iff _ _ p q = (λ h. cc, λ h. cc)
