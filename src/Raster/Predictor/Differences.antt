-- ===== src/Raster/Predictor/Differences.antt =====
-- The horizontal predictor of crates/raster-h3-core/src/raster/predictor.rs undoes horizontal
-- differencing, defined here the way a TIFF encoder does it.
use native.Mathlib.Nat.{mod-eq_of_lt, add-mod_right, mod-lt, one-le-pow}
use raster_h.Common.{
  ℕ, zero, suc, ◌+◌, ◌-◌, ◌%◌, ◌^◌, ◌≤◌, ◌<◌, ◌≡◌, refl, ap, sym, ◌∙◌, List, [], ◌∷◌, ◌++◌,
  append_assoc, length, length-append, length-take, length-drop, take-append-drop, get_or, set,
  take, drop, All, All-append, All-parts, subst, leb, arith, Bool-cases, inl, inr,
}
use raster_h.Raster.Predictor.{wrapping_add, predict_from, predict_row}

abbrev pub Fits : ℕ → ℕ → Type 0
Fits b x = x < 256 ^ b

-- Each sample less the one `spp` before it; `done` is what stands before.
pub diff_from : ℕ → ℕ → List ℕ → List ℕ → List ℕ
diff_from b spp done [] = []
diff_from b spp done (x ∷ xs) =
    ((x + 256 ^ b - get_or done (length done - spp) 0) % 256 ^ b)
    ∷ diff_from b spp (done ++ (x ∷ [])) xs

unfoldable pub difference : ℕ → ℕ → List ℕ → List ℕ
unfolding diff_from
difference b spp row = take spp row ++ diff_from b spp (take spp row) (drop spp row)

set-append :
    (xs : List ℕ) (y v : ℕ) (ys : List ℕ) → set (xs ++ (y ∷ ys)) (length xs) v ≡ xs ++ (v ∷ ys)
set-append [] y v ys = refl
set-append (x ∷ xs) y v ys = ap (λ t. x ∷ t) (set-append xs y v ys)

get_or-last : (xs : List ℕ) (y : ℕ) (ys : List ℕ) → get_or (xs ++ (y ∷ ys)) (length xs) 0 ≡ y
get_or-last [] y ys = refl
get_or-last (x ∷ xs) y ys = get_or-last xs y ys

get_or-append : (xs ys : List ℕ) (i : ℕ) → i < length xs → get_or (xs ++ ys) i 0 ≡ get_or xs i 0
get_or-append [] ys i h = absurd (omega arith)
get_or-append (x ∷ xs) ys zero h = refl
get_or-append (x ∷ xs) ys (suc i) h = get_or-append xs ys i (omega arith)

get_or-Fits :
    (b : ℕ) (xs : List ℕ) (i : ℕ) → All (Fits b) xs → i < length xs → Fits b (get_or xs i 0)
get_or-Fits b [] i f h = absurd (omega arith)
get_or-Fits b (x ∷ xs) zero f h = f.0
get_or-Fits b (x ∷ xs) (suc i) f h = get_or-Fits b xs i f.1 (omega arith)

-- A difference that wraps, added back.
restored : (m x y : ℕ) → x < m → y < m → ((x + m - y) % m + y) % m ≡ x
restored m x y p q = elim (Bool-cases (leb y x)) [
  | inl above ↦
      let split : x + m - y ≡ (x - y) + m = ground (arith, above) in
      let whole : x - y + y ≡ x = ground (arith, above) in
      rw
        (
          split,
          add-mod_right (x - y) m,
          (let e : (x - y) % m ≡ x - y = mod-eq_of_lt (omega arith) in e),
          whole,
        )
        (mod-eq_of_lt p)
  | inr below ↦
      let small : x + m - y < m = ground (arith, below) in
      let whole : x + m - y + y ≡ x + m = omega arith in
      rw ((let e : (x + m - y) % m ≡ x + m - y = mod-eq_of_lt small in e), whole, add-mod_right x m)
        (mod-eq_of_lt p)
]

predict_from-step :
    (b spp n col : ℕ) (row : List ℕ) (v : ℕ) (next : List ℕ)
    → wrapping_add b (get_or row col 0) (get_or row (col - spp) 0) ≡ v
    → set row col v ≡ next
    → predict_from b spp (suc n) col row ≡ predict_from b spp n (col + 1) next
unfolding predict_from
predict_from-step b spp n col row v next p q =
    ap (λ w. predict_from b spp n (col + 1) (set row col w)) p
    ∙ ap (predict_from b spp n (col + 1)) q

predict_from-diff_from :
    (b spp : ℕ) (done todo : List ℕ)
    → 1 ≤ spp
    → spp ≤ length done
    → All (Fits b) done
    → All (Fits b) todo
    → predict_from b spp (length todo) (length done) (done ++ diff_from b spp done todo)
      ≡ done ++ todo
unfolding predict_from diff_from wrapping_add
predict_from-diff_from b spp done [] pos enough f g = refl
predict_from-diff_from b spp done (x ∷ xs) pos enough f g =
    let y = get_or done (length done - spp) 0 in
    let d : ℕ = (x + 256 ^ b - y) % 256 ^ b in
    let rest = diff_from b spp (done ++ (x ∷ [])) xs in
    predict_from-step b spp (length xs) (length done) (done ++ (d ∷ rest)) x (done ++ (x ∷ rest))
      (rw (get_or-last done d rest, get_or-append done (d ∷ rest) (length done - spp) (omega arith))
        (restored (256 ^ b) x y g.0 (get_or-Fits b done (length done - spp) f (omega arith))))
      (set-append done d x rest)
    ∙ subst (λ row. predict_from b spp (length xs) (length done + 1) row ≡ done ++ (x ∷ xs))
        (append_assoc done (x ∷ []) rest)
        (subst
          (λ n. predict_from b spp (length xs) n ((done ++ (x ∷ [])) ++ rest) ≡ done ++ (x ∷ xs))
          (length-append done (x ∷ []))
          (predict_from-diff_from b spp (done ++ (x ∷ [])) xs pos
              (omega (arith, length-append done (x ∷ []), enough))
              (All-append (Fits b) done (x ∷ []) f (g.0, tt)) g.1
            ∙ append_assoc done (x ∷ []) xs))

length-diff_from :
    (b spp : ℕ) (done todo : List ℕ) → length (diff_from b spp done todo) ≡ length todo
unfolding diff_from
length-diff_from b spp done [] = refl
length-diff_from b spp done (x ∷ xs) = ap suc (length-diff_from b spp (done ++ (x ∷ [])) xs)

pub length-difference : (b spp : ℕ) (row : List ℕ) → length (difference b spp row) ≡ length row
unfolding difference
length-difference b spp row =
    length-append (take spp row) (diff_from b spp (take spp row) (drop spp row))
    ∙ ap (λ n. length (take spp row) + n) (length-diff_from b spp (take spp row) (drop spp row))
    ∙ sym (length-append (take spp row) (drop spp row))
    ∙ ap length (take-append-drop spp row)

-- Decoding a row of differences gives the row.
pub predict_row-difference :
    (b spp : ℕ) (row : List ℕ)
    → 1 ≤ spp
    → spp ≤ length row
    → All (Fits b) row
    → predict_row b spp (difference b spp row) ≡ row
unfolding predict_row difference
predict_row-difference b spp row pos enough f =
    let front = take spp row in
    let back = drop spp row in
    let parts : All (Fits b) front × All (Fits b) back = All-parts (Fits b) spp row f in
    let own : length front ≡ spp = omega (arith, length-take spp row) in
    let left : length (difference b spp row) - spp ≡ length back =
      omega (arith, length-difference b spp row, length-drop spp row) in
    rw left (
      subst (λ n. predict_from b spp (length back) n (front ++ diff_from b spp front back) ≡ row)
        own
        (predict_from-diff_from b spp front back pos (omega arith) parts.0 parts.1
          ∙ take-append-drop spp row))

diff_from-Fits : (b spp : ℕ) (done todo : List ℕ) → All (Fits b) (diff_from b spp done todo)
unfolding diff_from
diff_from-Fits b spp done [] = tt
diff_from-Fits b spp done (x ∷ xs) = (
  mod-lt (x + 256 ^ b - get_or done (length done - spp) 0) (one-le-pow b 256 (omega arith)),
  diff_from-Fits b spp (done ++ (x ∷ [])) xs,
)

pub difference-Fits :
    (b spp : ℕ) (row : List ℕ) → All (Fits b) row → All (Fits b) (difference b spp row)
unfolding difference
difference-Fits b spp row f =
    All-append (Fits b) (take spp row) (diff_from b spp (take spp row) (drop spp row))
      (All-parts (Fits b) spp row f).0 (diff_from-Fits b spp (take spp row) (drop spp row))
