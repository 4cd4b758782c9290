-- ===== src/Encoding/Hex.antt =====
-- Hexadecimal cell indices: crates/raster-h3-core/src/encoding/fast_hex.rs. The parser is
-- `parse_hex_u64` on a text that `trim` has left.
use raster_h.Columnar.Utf8.{ascii}
use raster_h.Common.{
  ℕ, zero, suc, ◌+◌, ◌-◌, ◌*◌, ◌/◌, ◌%◌, ◌^◌, ◌≤◌, ◌<◌, ◌≡◌, refl, ap, subst, ◌∙◌, true, false,
  ◌&&◌, ◌||◌, Option, none, some, List, [], ◌∷◌, length, get_or, leb, ltb, ◌==◌, if◌then◌else◌,
  Bool-cases, inl, inr, arith,
}

abbrev hex_chars : List ℕ
hex_chars = ascii "0123456789abcdef"

unfoldable pub hex_char : ℕ → ℕ
hex_char n = get_or hex_chars n 0

-- The loop, on the rounds that `idx` leaves; what is written grows to the front.
unfoldable pub hex_loop : ℕ → ℕ → List ℕ → List ℕ
unfolding hex_char
hex_loop zero val written = written
hex_loop (suc idx) val written =
    let rest = hex_loop idx (val / 16) (hex_char (val % 16) ∷ written) in
    if ltb 0 val then rest else written

unfoldable pub fast_hex_u64 : ℕ → List ℕ
unfolding hex_loop
fast_hex_u64 val = if val == 0 then ascii "0" else hex_loop 16 val []

unfoldable pub nibble : ℕ → Option ℕ
nibble b =
    if leb 48 b && leb b 57
    then some (b - 48)
    else if leb 97 b && leb b 102
    then some (b - 97 + 10)
    else if leb 65 b && leb b 70
    then some (b - 65 + 10)
    else none

-- `(val << 4) | nibble`
unfoldable pub parse_from : ℕ → List ℕ → Option ℕ
unfolding nibble
parse_from val [] = some val
parse_from val (b ∷ bytes) = elim (nibble b) [
  | none ↦ none
  | some n ↦ parse_from ((val * 16) % 2 ^ 64 + n) bytes
]

unfoldable pub parse_hex_u64 : List ℕ → Option ℕ
unfolding parse_from
parse_hex_u64 bytes =
    if (length bytes == 0) || ltb 16 (length bytes) then none else parse_from 0 bytes

-- A predicate of the numbers below `k`, and that checking them is enough.
abbrev Checks : (ℕ → Type 0) → ℕ → Type 0
Checks P zero = Unit {0}
Checks P (suc k) = P k × Checks P k

checked : (P : ℕ → Type 0) (k n : ℕ) → Checks P k → n < k → P n
checked P zero n h lt = absurd (omega arith)
checked P (suc k) n h lt = elim (Bool-cases (n == k)) [
  | inl same ↦ subst P (let e : k ≡ n = ground (arith, same) in e) h.0
  | inr other ↦ checked P k n h.1 (ground (arith, other, lt))
]

nibble-hex_char : (n : ℕ) → n < 16 → nibble (hex_char n) ≡ some n
unfolding nibble hex_char
nibble-hex_char n h =
    checked (λ n. nibble (hex_char n) ≡ some n) 16 n
      (
        refl,
        (
          refl,
          (
            refl,
            (
              refl,
              (
                refl,
                (
                  refl,
                  (
                    refl,
                    (refl, (refl, (refl, (refl, (refl, (refl, (refl, (refl, (refl, tt))))))))),
                  ),
                ),
              ),
            ),
          ),
        ),
      )
      h

parse_from-hex_loop :
    (idx v : ℕ) (written : List ℕ)
    → v < 16 ^ idx
    → v < 2 ^ 64
    → parse_from 0 (hex_loop idx v written) ≡ parse_from v written
unfolding hex_loop parse_from
parse_from-hex_loop zero v written small fits =
    ap (λ n. parse_from n written) (let e : 0 ≡ v = omega arith in e)
parse_from-hex_loop (suc idx) v written small fits = elim (Bool-cases (ltb 0 v)) [
  | inr done ↦ rw done (ap (λ n. parse_from n written) (let e : 0 ≡ v = ground (arith, done) in e))
  | inl more ↦ rw more (
      parse_from-hex_loop idx (v / 16) (hex_char (v % 16) ∷ written) (omega arith) (omega arith)
      ∙ digit)
]
  where
    digit : parse_from (v / 16) (hex_char (v % 16) ∷ written) ≡ parse_from v written
    digit =
        rw (nibble-hex_char (v % 16) (omega arith), parse_from)
          (ap (λ n. parse_from n written)
            (let e : (v / 16 * 16) % 2 ^ 64 + v % 16 ≡ v = omega arith in e))

length-hex_loop :
    (idx v : ℕ) (written : List ℕ)
    → (length written ≤ length (hex_loop idx v written))
      × (length (hex_loop idx v written) ≤ idx + length written)
unfolding hex_loop
length-hex_loop zero v written = (omega arith, omega arith)
length-hex_loop (suc idx) v written = elim (Bool-cases (ltb 0 v)) [
  | inr done ↦ rw done (omega arith, omega arith)
  | inl more ↦
      let (a, b) = length-hex_loop idx (v / 16) (hex_char (v % 16) ∷ written) in
      rw more (omega arith, omega arith)
]

started : (v : ℕ) → (v == 0) ≡ false → 0 < length (hex_loop 16 v [])
started v h =
    let more : ltb 0 v ≡ true = ground (arith, h) in
    unfold hex_loop in
    rw more (let (a, b) = length-hex_loop 15 (v / 16) (hex_char (v % 16) ∷ []) in omega arith)

-- Parsing the text of a u64 gives the number back.
pub parse_hex_u64-fast_hex_u64 : (v : ℕ) → v < 2 ^ 64 → parse_hex_u64 (fast_hex_u64 v) ≡ some v
unfolding parse_hex_u64 fast_hex_u64
parse_hex_u64-fast_hex_u64 v fits = elim (Bool-cases (v == 0)) [
  | inl z ↦
      rw z (unfold parse_from in unfold nibble in ap some (let e : 0 ≡ v = ground (arith, z) in e))
  | inr some_bits ↦
      let (a, b) = length-hex_loop 16 v [] in
      let inside : ((length (hex_loop 16 v []) == 0) || ltb 16 (length (hex_loop 16 v [])))
          ≡ false =
        ground (arith, b, started v some_bits) in
      rw (some_bits, inside) (parse_from-hex_loop 16 v [] (omega arith) fits)
]
