-- ===== src/Common/Text.antt =====
-- Methods of `str` of Rust's standard library on the UTF-8 bytes of a text: `trim`, `split` at an
-- ASCII character and `to_ascii_lowercase`.
use raster_h.Common.Tests.{◌==◌, if◌then◌else◌}
use raster_h.Common.Lists.{length}
use Prim.Native.Nat.{ℕ, zero, suc}
use mathlib.Core.List.{List, [], ◌∷◌, ◌++◌, map}
use mathlib.Core.Option.{Option, none, some}

-- The characters of Unicode's White_Space property, encoded.
abbrev pub white_space : List (List ℕ)
white_space =
    (0x09 ∷ [])
    ∷ (0x0a ∷ [])
    ∷ (0x0b ∷ [])
    ∷ (0x0c ∷ [])
    ∷ (0x0d ∷ [])
    ∷ (0x20 ∷ [])
    ∷ (0xc2 ∷ 0x85 ∷ [])
    ∷ (0xc2 ∷ 0xa0 ∷ [])
    ∷ (0xe1 ∷ 0x9a ∷ 0x80 ∷ [])
    ∷ (0xe2 ∷ 0x80 ∷ 0x80 ∷ [])
    ∷ (0xe2 ∷ 0x80 ∷ 0x81 ∷ [])
    ∷ (0xe2 ∷ 0x80 ∷ 0x82 ∷ [])
    ∷ (0xe2 ∷ 0x80 ∷ 0x83 ∷ [])
    ∷ (0xe2 ∷ 0x80 ∷ 0x84 ∷ [])
    ∷ (0xe2 ∷ 0x80 ∷ 0x85 ∷ [])
    ∷ (0xe2 ∷ 0x80 ∷ 0x86 ∷ [])
    ∷ (0xe2 ∷ 0x80 ∷ 0x87 ∷ [])
    ∷ (0xe2 ∷ 0x80 ∷ 0x88 ∷ [])
    ∷ (0xe2 ∷ 0x80 ∷ 0x89 ∷ [])
    ∷ (0xe2 ∷ 0x80 ∷ 0x8a ∷ [])
    ∷ (0xe2 ∷ 0x80 ∷ 0xa8 ∷ [])
    ∷ (0xe2 ∷ 0x80 ∷ 0xa9 ∷ [])
    ∷ (0xe2 ∷ 0x80 ∷ 0xaf ∷ [])
    ∷ (0xe2 ∷ 0x81 ∷ 0x9f ∷ [])
    ∷ (0xe3 ∷ 0x80 ∷ 0x80 ∷ [])
    ∷ []

unfoldable pub strip_prefix : List ℕ → List ℕ → Option (List ℕ)
strip_prefix [] bs = some bs
strip_prefix (p ∷ ps) [] = none
strip_prefix (p ∷ ps) (b ∷ bs) = let rest = strip_prefix ps bs in if p == b then rest else none

unfoldable pub strip_any : List (List ℕ) → List ℕ → Option (List ℕ)
unfolding strip_prefix
strip_any [] bs = none
strip_any (p ∷ ps) bs = elim (strip_prefix p bs) [ some rest ↦ some rest | none ↦ strip_any ps bs ]

-- A character takes a byte at least: as many rounds as bytes are enough.
unfoldable pub strip_all : List (List ℕ) → ℕ → List ℕ → List ℕ
unfolding strip_any
strip_all ps zero bs = bs
strip_all ps (suc fuel) bs = elim (strip_any ps bs) [
  | none ↦ bs
  | some rest ↦ strip_all ps fuel rest
]

abbrev pub reverse : List ℕ → List ℕ
reverse [] = []
reverse (b ∷ bs) = reverse bs ++ (b ∷ [])

unfoldable pub trim : List ℕ → List ℕ
unfolding strip_all
trim bs =
    let front = strip_all white_space (length bs) bs in
    reverse (strip_all (map reverse white_space) (length front) (reverse front))

push_front : ℕ → List (List ℕ) → List (List ℕ)
push_front b [] = (b ∷ []) ∷ []
push_front b (part ∷ parts) = (b ∷ part) ∷ parts

unfoldable pub split_at : ℕ → List ℕ → List (List ℕ)
unfolding push_front
split_at sep [] = [] ∷ []
split_at sep (b ∷ bs) =
    let rest = split_at sep bs in if b == sep then [] ∷ rest else push_front b rest
