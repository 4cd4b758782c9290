-- ===== src/Common/Eq.antt =====
-- Boolean equality as an interface, with the instances that the maps of the program need.
use raster_h.Common.Tests.{◌==◌ as nat_beq, ==_iff}
use raster_h.Common.Int.{ℤ, eqb_ℤ, eqb_ℤ-eq, eqb_ℤ_self}
use Prim.Native.Nat.{ℕ}
use mathlib.Core.Path.{◌≡◌, refl, ap₂}
use mathlib.Core.Logic.{◌↔◌}
use mathlib.Core.Bool.{Bool, true, false, ◌&&◌}
use mathlib.Core.List.{List, [], ◌∷◌}

pub record HasEq {ℓ} (K : Type ℓ) : Type ℓ where
  pub beq : K → K → Bool
  pub beq_iff : (i j : K) → (beq i j ≡ true) ↔ (i ≡ j)

instance abbrev pub nat_has_eq : HasEq ℕ
nat_has_eq = record { beq = nat_beq; beq_iff = ==_iff }

pub eqb_ℤ_iff : (a b : ℤ) → (eqb_ℤ a b ≡ true) ↔ (a ≡ b)
eqb_ℤ_iff a b = (eqb_ℤ-eq a b, λ e. rw e (eqb_ℤ_self b))

instance abbrev pub int_has_eq : HasEq ℤ
int_has_eq = record { beq = eqb_ℤ; beq_iff = eqb_ℤ_iff }

module _ {ℓ} {A : Type ℓ} ⦃e : HasEq A⦄ where
  pub beq_self : (a : A) → e.beq a a ≡ true
  beq_self a = (e.beq_iff a a).1 refl

  abbrev pub list_beq : List A → List A → Bool
  list_beq [] [] = true
  list_beq [] (b ∷ bs) = false
  list_beq (a ∷ as') [] = false
  list_beq (a ∷ as') (b ∷ bs) = e.beq a b && list_beq as' bs

and-parts : (p q : Bool) → (p && q) ≡ true → (p ≡ true) × (q ≡ true)
and-parts true q h = (refl, h)
and-parts false q h = cc

module _ {ℓ} {A : Type ℓ} ⦃e : HasEq A⦄ where
  list_beq-eq : (xs ys : List A) → list_beq xs ys ≡ true → xs ≡ ys
  list_beq-eq [] [] h = refl
  list_beq-eq [] (y ∷ ys) h = cc
  list_beq-eq (x ∷ xs) [] h = cc
  list_beq-eq (x ∷ xs) (y ∷ ys) h =
      let (p, q) = and-parts (e.beq x y) (list_beq xs ys) h in
      ap₂ (λ a b. a ∷ b) ((e.beq_iff x y).0 p) (list_beq-eq xs ys q)

  pub list_beq_self : (xs : List A) → list_beq xs xs ≡ true
  list_beq_self [] = refl
  list_beq_self (x ∷ xs) = rw (beq_self x) (list_beq_self xs)

  pub list_beq_iff : (xs ys : List A) → (list_beq xs ys ≡ true) ↔ (xs ≡ ys)
  list_beq_iff xs ys = (list_beq-eq xs ys, λ h. rw h (list_beq_self ys))

  instance abbrev pub list_has_eq : HasEq (List A)
  list_has_eq = record { beq = list_beq; beq_iff = list_beq_iff }
