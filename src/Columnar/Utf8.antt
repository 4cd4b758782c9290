-- ===== src/Columnar/Utf8.antt =====
-- Text as Rust keeps it: a `String` is the list of its UTF-8 bytes. `String::from_utf8` and
-- `String::from_utf8_lossy` of the standard library, as crates/raster-h3-core/src/columnar/ipc.rs
-- uses them, and `eq_ignore_ascii_case`.
use Prim.Native.Char.{code}
use Prim.Native.String.{String}
use raster_h.Common.{
  ℕ, ◌+◌, ◌≡◌, sym, ◌∙◌, ap, Bool, true, false, ◌&&◌, Option, none, some, List, [], ◌∷◌, ◌++◌,
  append-nil, append_assoc, ltb, leb, ◌==◌, if◌then◌else◌,
}

-- The bytes of an ASCII literal.
abbrev pub ascii : String → List ℕ
ascii String.[] = []
ascii (String.◌∷◌ c s) = code c ∷ ascii s

abbrev pub in_range : ℕ × ℕ → ℕ → Bool
in_range (lo, hi) b = leb lo b && leb b hi

-- What the first byte of a character asks of the bytes behind it, `none` where no character
-- begins so.
unfoldable pub expect : ℕ → Option (List (ℕ × ℕ))
expect b =
    if ltb b 0x80
    then some []
    else if in_range (0xc2, 0xdf) b
    then some ((0x80, 0xbf) ∷ [])
    else if b == 0xe0
    then some ((0xa0, 0xbf) ∷ (0x80, 0xbf) ∷ [])
    else if b == 0xed
    then some ((0x80, 0x9f) ∷ (0x80, 0xbf) ∷ [])
    else if in_range (0xe1, 0xef) b
    then some ((0x80, 0xbf) ∷ (0x80, 0xbf) ∷ [])
    else if b == 0xf0
    then some ((0x90, 0xbf) ∷ (0x80, 0xbf) ∷ (0x80, 0xbf) ∷ [])
    else if in_range (0xf1, 0xf3) b
    then some ((0x80, 0xbf) ∷ (0x80, 0xbf) ∷ (0x80, 0xbf) ∷ [])
    else if b == 0xf4
    then some ((0x80, 0x8f) ∷ (0x80, 0xbf) ∷ (0x80, 0xbf) ∷ [])
    else none

-- Whether the bytes complete the character begun (`pending`) and are UTF-8 from there on.
unfoldable pub is_utf8_from : List (ℕ × ℕ) → List ℕ → Bool
is_utf8_from [] [] = true
is_utf8_from (r ∷ rs) [] = false
is_utf8_from [] (b ∷ bs) = elim (expect b) [ none ↦ false | some rs ↦ is_utf8_from rs bs ]
is_utf8_from (r ∷ rs) (b ∷ bs) = elim (in_range r b) [ true ↦ is_utf8_from rs bs | false ↦ false ]

abbrev pub is_utf8 : List ℕ → Bool
is_utf8 bs = is_utf8_from [] bs

-- `String::from_utf8`: the same bytes, if they are UTF-8.
unfoldable pub from_utf8 : List ℕ → Option (List ℕ)
from_utf8 bs = if is_utf8 bs then some bs else none

-- U+FFFD.
abbrev pub replacement : List ℕ
replacement = 0xef ∷ 0xbf ∷ 0xbd ∷ []

start_char : (List (ℕ × ℕ) → List ℕ → List ℕ) → ℕ → List ℕ
start_char rest b = elim (expect b) [
  | none ↦ replacement ++ rest [] []
  | some rs ↦ rest rs (b ∷ [])
]

-- `acc` holds the bytes of the character being read. A broken one becomes one U+FFFD, and the byte
-- that breaks it is read again as a first byte.
pub lossy_from : List (ℕ × ℕ) → List ℕ → List ℕ → List ℕ
lossy_from [] acc [] = acc
lossy_from (r ∷ rs) acc [] = replacement
lossy_from [] acc (b ∷ bs) = acc ++ start_char (λ rs a. lossy_from rs a bs) b
lossy_from (r ∷ rs) acc (b ∷ bs) = elim (in_range r b) [
  | true ↦ lossy_from rs (acc ++ (b ∷ [])) bs
  | false ↦ replacement ++ start_char (λ rs' a. lossy_from rs' a bs) b
]

unfoldable pub from_utf8_lossy : List ℕ → List ℕ
unfolding lossy_from start_char expect
from_utf8_lossy bs = lossy_from [] [] bs

lossy_from-is_utf8 :
    (rs : List (ℕ × ℕ)) (acc bs : List ℕ)
    → is_utf8_from rs bs ≡ true
    → lossy_from rs acc bs ≡ acc ++ bs
unfolding is_utf8_from lossy_from start_char
lossy_from-is_utf8 [] acc [] h = sym (append-nil acc)
lossy_from-is_utf8 (r ∷ rs) acc [] h = cc
lossy_from-is_utf8 [] acc (b ∷ bs) h =
    start (λ rs p. lossy_from-is_utf8 rs (b ∷ []) bs p) (expect b) h
  where
    start :
        ((rs : List (ℕ × ℕ)) → is_utf8_from rs bs ≡ true → lossy_from rs (b ∷ []) bs ≡ b ∷ bs)
        → (o : Option (List (ℕ × ℕ)))
        → elim o [ none ↦ false | some rs ↦ is_utf8_from rs bs ] ≡ true
        → acc ++ elim o [
          | none ↦ replacement ++ lossy_from [] [] bs
          | some rs ↦ lossy_from rs (b ∷ []) bs
        ]
          ≡ acc ++ (b ∷ bs)
    start ih none p = cc
    start ih (some rs) p = ap (λ t. acc ++ t) (ih rs p)
lossy_from-is_utf8 (r ∷ rs) acc (b ∷ bs) h =
    more (λ p. lossy_from-is_utf8 rs (acc ++ (b ∷ [])) bs p) (in_range r b) h
  where
    more :
        (is_utf8_from rs bs ≡ true → lossy_from rs (acc ++ (b ∷ [])) bs ≡ (acc ++ (b ∷ [])) ++ bs)
        → (t : Bool) → elim t [ true ↦ is_utf8_from rs bs | false ↦ false ] ≡ true
        → elim t [
          | true ↦ lossy_from rs (acc ++ (b ∷ [])) bs
          | false ↦ replacement ++ start_char (λ rs' a. lossy_from rs' a bs) b
        ]
          ≡ acc ++ (b ∷ bs)
    more ih true p = ih p ∙ append_assoc acc (b ∷ []) bs
    more ih false p = cc

-- On UTF-8 the lossy conversion changes nothing.
pub from_utf8_lossy-is_utf8 : (bs : List ℕ) → is_utf8 bs ≡ true → from_utf8_lossy bs ≡ bs
unfolding from_utf8_lossy
from_utf8_lossy-is_utf8 bs h = lossy_from-is_utf8 [] [] bs h

pub from_utf8-is_utf8 : (bs : List ℕ) → is_utf8 bs ≡ true → from_utf8 bs ≡ some bs
unfolding from_utf8
from_utf8-is_utf8 bs h = rw h

-- `eq_ignore_ascii_case` on bytes.
pub to_ascii_lowercase : ℕ → ℕ
to_ascii_lowercase b = if in_range (b'A', b'Z') b then b + 32 else b

unfoldable pub eq_ignore_ascii_case : List ℕ → List ℕ → Bool
unfolding to_ascii_lowercase
eq_ignore_ascii_case [] [] = true
eq_ignore_ascii_case [] (b ∷ bs) = false
eq_ignore_ascii_case (a ∷ as') [] = false
eq_ignore_ascii_case (a ∷ as') (b ∷ bs) =
    (to_ascii_lowercase a == to_ascii_lowercase b) && eq_ignore_ascii_case as' bs
