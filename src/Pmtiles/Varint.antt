-- ===== src/Pmtiles/Varint.antt =====
-- `write_varint` of crates/raster-h3-core/src/pmtiles/writer.rs (and of mvt.rs, which has the same
-- text), against a reader written from the format's description.
use raster_h.Common.{
  ℕ, zero, suc, ◌+◌, ◌-◌, ◌*◌, ◌/◌, ◌%◌, ◌^◌, ◌≤◌, ◌<◌, ◌≡◌, refl, Option, none, some, List, [],
  ◌∷◌, ◌++◌, length, All, ltb, leb, if◌then◌else◌, arith, Bool-cases, inl, inr,
}
use raster_h.Common.Bytes.{IsByte}

-- The loop `while val >= 0x80`, with fuel: a value below 128 ^ (k + 1) takes k rounds. For a u64
-- `val & 0x7F` is `val % 128`, and `| 0x80` on it adds 128.
unfoldable pub write_loop : ℕ → ℕ → List ℕ
write_loop zero val = (val % 128) ∷ []
write_loop (suc fuel) val =
    let rest = write_loop fuel (val / 128) in
    if leb 128 val then (val % 128 + 128) ∷ rest else (val % 128) ∷ []

-- A u64 is below 128 ^ 10, so nine rounds are enough.
unfoldable pub write_varint : ℕ → List ℕ
write_varint val = if ltb val 128 then val ∷ [] else write_loop 9 val

-- A varint from the front of the bytes: groups of seven bits, lowest first, the last one below 128.
unfoldable pub read_varint : List ℕ → Option (ℕ × List ℕ)
read_varint [] = none
read_varint (b ∷ bs) =
    if ltb b 128
    then some (b, bs)
    else elim (read_varint bs) [ none ↦ none | some (v, rest) ↦ some (b - 128 + 128 * v, rest) ]

read_varint-write_loop :
    (k v : ℕ) (rest : List ℕ)
    → v < 128 ^ suc k
    → read_varint (write_loop k v ++ rest) ≡ some (v, rest)
unfolding read_varint write_loop
read_varint-write_loop zero v rest h = ground arith
read_varint-write_loop (suc k) v rest h =
    ground (arith, read_varint-write_loop k (v / 128) rest (omega arith))

-- Reading a varint gives the u64 that was written, and leaves what follows it.
pub read_varint-write_varint :
    (v : ℕ) (rest : List ℕ) → v < 2 ^ 64 → read_varint (write_varint v ++ rest) ≡ some (v, rest)
unfolding write_varint
read_varint-write_varint v rest h = elim (Bool-cases (ltb v 128)) [
  | inl small ↦ rw small (unfold read_varint in rw small refl)
  | inr large ↦ rw large (read_varint-write_loop 9 v rest (omega arith))
]

write_loop-cons : (k v : ℕ) → (b : ℕ) × (bs : List ℕ) × (write_loop k v ≡ b ∷ bs)
unfolding write_loop
write_loop-cons zero v = (v % 128, [], refl)
write_loop-cons (suc k) v = elim (Bool-cases (leb 128 v)) [
  | inl more ↦ rw more (v % 128 + 128, write_loop k (v / 128), refl)
  | inr last ↦ rw last (v % 128, [], refl)
]

pub write_varint-cons : (v : ℕ) → (b : ℕ) × (bs : List ℕ) × (write_varint v ≡ b ∷ bs)
unfolding write_varint
write_varint-cons v = elim (Bool-cases (ltb v 128)) [
  | inl small ↦ rw small (v, [], refl)
  | inr large ↦ rw large (write_loop-cons 9 v)
]

write_loop-IsByte : (k v : ℕ) → All IsByte (write_loop k v)
unfolding write_loop
write_loop-IsByte zero v = omega arith
write_loop-IsByte (suc k) v = ground (arith, write_loop-IsByte k (v / 128))

length-write_loop : (k v : ℕ) → length (write_loop k v) ≤ k + 1
unfolding write_loop
length-write_loop zero v = omega arith
length-write_loop (suc k) v = ground (arith, length-write_loop k (v / 128))

-- A varint is at most ten elements, and each is a byte.
pub write_varint_shape : (v : ℕ) → All IsByte (write_varint v) × (length (write_varint v) ≤ 10)
unfolding write_varint
write_varint_shape v = ground (arith, write_loop-IsByte 9 v, length-write_loop 9 v)
