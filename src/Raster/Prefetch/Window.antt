-- ===== src/Raster/Prefetch/Window.antt =====
-- The slots of the queue of prefetch.rs as a window on the sequence of jobs.
use raster_h.Common.{
  ℕ, zero, suc, ◌+◌, ◌-◌, ◌%◌, ◌≤◌, ◌<◌, ◌≡◌, ◌≢◌, inl, inr, refl, ap, ◌∙◌, List, [], ◌∷◌, length,
  get_or, set, ltb, ltb→lt, Bool-cases, arith,
}
use native.Mathlib.Nat.{mod-add-mod, mod-eq_of_lt, mod-eq-sub-mod, mod-lt}

module _ {ℓ} {A : Type ℓ} where
  pub length-set : (xs : List A) (i : ℕ) (v : A) → length (set xs i v) ≡ length xs
  length-set [] i v = refl
  length-set (x ∷ xs) zero v = refl
  length-set (x ∷ xs) (suc i) v = ap suc (length-set xs i v)

  pub get_or-set : (xs : List A) (i : ℕ) (v d : A) → i < length xs → get_or (set xs i v) i d ≡ v
  get_or-set [] i v d h = absurd (omega arith)
  get_or-set (x ∷ xs) zero v d h = refl
  get_or-set (x ∷ xs) (suc i) v d h = get_or-set xs i v d (omega arith)

  pub get_or-set_other :
      (xs : List A) (i j : ℕ) (v d : A) → i ≢ j → get_or (set xs i v) j d ≡ get_or xs j d
  get_or-set_other [] i j v d h = refl
  get_or-set_other (x ∷ xs) zero zero v d h = absurd (h refl)
  get_or-set_other (x ∷ xs) zero (suc j) v d h = refl
  get_or-set_other (x ∷ xs) (suc i) zero v d h = refl
  get_or-set_other (x ∷ xs) (suc i) (suc j) v d h = get_or-set_other xs i j v d (λ e. h (ap suc e))

-- Two jobs that are less than the capacity apart have different slots.
pub slot_apart : (c a k : ℕ) → k < c → (a + k) % c ≡ a % c → k ≡ 0
slot_apart c a k small same =
    let r = a % c in
    let low : r < c = mod-lt a (let pos : 0 < c = omega arith in pos) in
    let summed : (r + k) % c ≡ r = mod-add-mod a c k ∙ same in
    elim (Bool-cases (ltb (r + k) c)) [
      | inl fits ↦
          let e : (r + k) % c ≡ r + k = mod-eq_of_lt (ltb→lt (r + k) c fits) in
          omega (arith, e, summed)
      | inr wraps ↦
          let over : c ≤ r + k = ground (arith, wraps) in
          let e : (r + k) % c ≡ (r + k - c) % c = mod-eq-sub-mod over in
          let e' : (r + k - c) % c ≡ r + k - c = mod-eq_of_lt (omega arith) in
          omega (arith, e, e', summed, over, low)
    ]
