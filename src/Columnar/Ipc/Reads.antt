-- ===== src/Columnar/Ipc/Reads.antt =====
-- What it means that a reader reads back what a writer of ipc.rs wrote, with rules for its parts.
use raster_h.Columnar.Ipc.{write_u32, write_each, write_bytes, bool_byte}
use raster_h.Columnar.Ipc.Reader.{
  Reader, ◌>>=◌, pure, read_exact, read_u8, read_u32, read_many, read_bytes, nonzero,
}
use raster_h.Common.{
  ℕ, ◌%◌, ◌^◌, ◌<◌, ◌≡◌, refl, ap, ap₂, ◌∙◌, Bool, true, false, List, [], ◌∷◌, ◌++◌, map,
  append_assoc, length, All, take, drop, leb, ok, arith, length-append,
}
use raster_h.Common.Bytes.{to_le_bytes, from_le_bytes, length-to_le_bytes}

-- On the bytes `w` and whatever follows them the reader returns `a` and leaves what follows.
abbrev pub Reads {ℓ} : {A : Type ℓ} → Reader A → List ℕ → A → Type ℓ
Reads r w a = (rest : List ℕ) → r (w ++ rest) ≡ ok (a, rest)

pub Reads-bind {ℓ κ} :
    {A : Type ℓ} {B : Type κ} (m : Reader A) (f : A → Reader B) (w v : List ℕ) (a : A) (b : B)
    → Reads m w a
    → Reads (f a) v b
    → Reads (m >>= f) (w ++ v) b
Reads-bind m f w v a b h k rest = rw (append_assoc w v rest) (rw (h (v ++ rest), ◌>>=◌) (k rest))

-- A last step that writes nothing more.
pub Reads-map {ℓ κ} :
    {A : Type ℓ} {B : Type κ} (m : Reader A) (g : A → B) (w : List ℕ) (a : A)
    → Reads m w a
    → Reads (m >>= λ x. pure (g x)) w (g a)
Reads-map m g w a h rest = rw (h rest, ◌>>=◌) refl

take-length {ℓ} : {A : Type ℓ} (xs ys : List A) → take (length xs) (xs ++ ys) ≡ xs
take-length [] ys = refl
take-length (x ∷ xs) ys = ap (λ t. x ∷ t) (take-length xs ys)

drop-length {ℓ} : {A : Type ℓ} (xs ys : List A) → drop (length xs) (xs ++ ys) ≡ ys
drop-length [] ys = refl
drop-length (x ∷ xs) ys = drop-length xs ys

read_exact-length : (w : List ℕ) → Reads (read_exact (length w)) w w
unfolding read_exact
read_exact-length w rest = rw (long, take-length w rest, drop-length w rest) refl
  where
    long : leb (length w) (length (w ++ rest)) ≡ true
    long = ground (arith, length-append w rest)

pub Reads-exact : (n : ℕ) (w : List ℕ) → length w ≡ n → Reads (read_exact n) w w
Reads-exact n w e = rw (← e) (read_exact-length w)

pub Reads-u8 : (b : ℕ) → Reads read_u8 (b ∷ []) b
unfolding read_u8
Reads-u8 b rest = refl

pub Reads-u32 : (v : ℕ) → v < 2 ^ 32 → Reads read_u32 (write_u32 v) v
unfolding read_u32 write_u32
Reads-u32 v h rest =
    Reads-map (read_exact 4) from_le_bytes (to_le_bytes 4 (v % 2 ^ 32)) _
      (Reads-exact 4 (to_le_bytes 4 (v % 2 ^ 32)) (length-to_le_bytes 4 (v % 2 ^ 32))) rest
    ∙ ap (λ t. ok (t, rest)) (omega arith)

-- A 64-bit value through any way `g` to read its bytes.
pub Reads-le64 {ℓ} :
    {A : Type ℓ} (g : List ℕ → A) (w : ℕ)
    → Reads (read_exact 8 >>= λ b. pure (g b)) (to_le_bytes 8 w) (g (to_le_bytes 8 w))
Reads-le64 g w =
    Reads-map (read_exact 8) g (to_le_bytes 8 w) (to_le_bytes 8 w)
      (Reads-exact 8 (to_le_bytes 8 w) (length-to_le_bytes 8 w))

pub Reads-bytes : (b : List ℕ) → length b < 2 ^ 32 → Reads read_bytes (write_bytes b) b
unfolding read_bytes write_bytes
Reads-bytes b h =
    Reads-bind read_u32 read_exact (write_u32 (length b)) b (length b) b (Reads-u32 (length b) h)
      (Reads-exact (length b) b refl)

pub Reads-many {ℓ κ} :
    {A : Type ℓ} (P : A → Type κ) (read : Reader A) (write : A → List ℕ)
    → ((a : A) → P a → Reads read (write a) a)
    → (xs : List A) → All P xs
    → Reads (read_many (length xs) read) (write_each write xs) xs
unfolding read_many write_each
Reads-many P read write step [] h = λ rest. refl
Reads-many P read write step (x ∷ xs) h =
    Reads-bind read _ (write x) (write_each write xs) x (x ∷ xs) (step x h.0) (
      Reads-map (read_many (length xs) read) (λ vs. x ∷ vs) (write_each write xs) xs
        (Reads-many P read write step xs h.1))

pub nonzero-bool_byte : (b : Bool) → nonzero (bool_byte b) ≡ b
unfolding bool_byte
nonzero-bool_byte true = refl
nonzero-bool_byte false = refl

pub map-nonzero-bool_byte : (bs : List Bool) → map nonzero (map bool_byte bs) ≡ bs
map-nonzero-bool_byte [] = refl
map-nonzero-bool_byte (b ∷ bs) =
    ap₂ (λ x xs. x ∷ xs) (nonzero-bool_byte b) (map-nonzero-bool_byte bs)
