-- ===== src/Raster/Prefetch/Ordered.antt =====
-- The window of the queue of prefetch.rs under the storing and the taking of an item.
use raster_h.Raster.Prefetch.{OrderedPrefetchQueue, advance}
use raster_h.Raster.Prefetch.Window.{length-set, get_or-set, get_or-set_other, slot_apart}
use raster_h.Common.{
  ℕ, zero, suc, ◌+◌, ◌-◌, ◌%◌, ◌≤◌, ◌<◌, ◌≡◌, ◌≢◌, ◌⊎◌, inl, inr, sym, ap, ◌∙◌, subst, Option, none,
  some, List, [], ◌∷◌, ◌++◌, length, get_or, set, leb, ltb, ltb→lt, leb→le, ◌==◌, ==_iff,
  Bool-cases, arith,
}
use native.Mathlib.Nat.{add-mod_right, mod-lt}

-- The item of each job, and the items that the workers fail with.
module _ {T : Type 0} (item_of : ℕ → T) (Terminal : T → Type 0) where
  -- The items of the jobs before `n`.
  abbrev pub first_items : ℕ → List T
  first_items zero = []
  first_items (suc n) = first_items n ++ (item_of n ∷ [])

  abbrev pub IsSlot : ℕ → Option T → Type 0
  IsSlot job slot = (slot ≡ none) ⊎ (slot ≡ some (item_of job))

  -- The slots of the jobs from `next_read` on, as many as there are slots.
  pub record IsWindow (q : OrderedPrefetchQueue T) : Type 0 where
    pub sized : length q.slots ≡ q.capacity
    pub roomy : 0 < q.capacity
    pub holds :
        (k : ℕ)
        → k < q.capacity
        → IsSlot (q.next_read + k) (get_or q.slots ((q.next_read + k) % q.capacity) none)

  abbrev slot_of : OrderedPrefetchQueue T → ℕ → Option T
  slot_of q job = get_or q.slots (job % q.capacity) none

  slot-lt : (q : OrderedPrefetchQueue T) (job : ℕ) → IsWindow q → job % q.capacity < length q.slots
  slot-lt q job h = omega (arith, h.sized, mod-lt job h.roomy)

  pub advance-IsWindow : (q : OrderedPrefetchQueue T) → IsWindow q → IsWindow (advance q)
  unfolding advance
  advance-IsWindow q h = record {
    sized = length-set q.slots (q.next_read % q.capacity) none ∙ h.sized;
    roomy = h.roomy;
    holds = λ k small. holds k small;
  }
    where
      holds :
          (k : ℕ)
          → k < q.capacity
          → IsSlot (suc q.next_read + k) (
              get_or
                (set q.slots (q.next_read % q.capacity) none)
                ((suc q.next_read + k) % q.capacity)
                none)
      holds k small =
          let i = q.next_read % q.capacity in
          let j = (suc q.next_read + k) % q.capacity in
          let there : suc q.next_read + k ≡ q.next_read + suc k = omega arith in
          elim (Bool-cases (i == j)) [
            | inl same ↦
                let e : i ≡ j = (==_iff i j).0 same in
                inl (
                  ap (λ x. get_or (set q.slots i none) x none) (sym e)
                  ∙ get_or-set q.slots i none none (slot-lt q q.next_read h))
            | inr other ↦
                let apart : i ≢ j = (λ e. cc (other, (==_iff i j).1 e)) in
                let inside : suc k < q.capacity = elim (Bool-cases (ltb (suc k) q.capacity)) [
                  | inl fits ↦ ltb→lt (suc k) q.capacity fits
                  | inr last ↦
                      let full : suc k ≡ q.capacity = ground (arith, last, small) in
                      absurd (
                        apart (
                          sym (
                            ap (λ x. x % q.capacity) (there ∙ ap (λ x. q.next_read + x) full)
                            ∙ add-mod_right q.next_read q.capacity)))
                ] in
                subst (λ slot. IsSlot (suc q.next_read + k) slot)
                  (sym (get_or-set_other q.slots i j none none apart))
                  (subst (λ job. IsSlot job (slot_of q job)) (sym there) (h.holds (suc k) inside))
          ]

  pub stored-IsWindow :
      (q : OrderedPrefetchQueue T) (job : ℕ)
      → q.next_read ≤ job
      → job < q.next_read + q.capacity
      → IsWindow q
      → IsWindow (record q { slots = set q.slots (job % q.capacity) (some (item_of job)) })
  stored-IsWindow q job from to h = record {
    sized = length-set q.slots (job % q.capacity) (some (item_of job)) ∙ h.sized;
    roomy = h.roomy;
    holds = λ k small. holds k small;
  }
    where
      same_job :
          (k : ℕ)
          → k < q.capacity
          → job % q.capacity ≡ (q.next_read + k) % q.capacity
          → q.next_read + k ≡ job
      same_job k small e = elim (Bool-cases (leb job (q.next_read + k))) [
        | inl up ↦
            let le : job ≤ q.next_read + k = leb→le job (q.next_read + k) up in
            let d = q.next_read + k - job in
            let whole : job + d ≡ q.next_read + k = omega arith in
            let nought : d ≡ 0 =
              slot_apart q.capacity job d (omega arith) (ap (λ x. x % q.capacity) whole ∙ sym e) in
            omega (arith, nought, whole)
        | inr down ↦
            let le : q.next_read + k < job = ground (arith, down) in
            let d = job - (q.next_read + k) in
            let whole : q.next_read + k + d ≡ job = omega arith in
            let nought : d ≡ 0 =
              slot_apart q.capacity (q.next_read + k) d (omega arith)
                (ap (λ x. x % q.capacity) whole ∙ e) in
            omega (arith, nought, whole)
      ]

      holds :
          (k : ℕ)
          → k < q.capacity
          → IsSlot (q.next_read + k) (
              get_or
                (set q.slots (job % q.capacity) (some (item_of job)))
                ((q.next_read + k) % q.capacity)
                none)
      holds k small =
          let i = job % q.capacity in
          let j = (q.next_read + k) % q.capacity in
          elim (Bool-cases (i == j)) [
            | inl same ↦
                let e : i ≡ j = (==_iff i j).0 same in
                inr (
                  ap (λ x. get_or (set q.slots i (some (item_of job))) x none) (sym e)
                  ∙ get_or-set q.slots i (some (item_of job)) none (slot-lt q job h)
                  ∙ ap (λ x. some (item_of x)) (sym (same_job k small e)))
            | inr other ↦
                let apart : i ≢ j = (λ e. cc (other, (==_iff i j).1 e)) in
                subst (λ slot. IsSlot (q.next_read + k) slot)
                  (sym (get_or-set_other q.slots i j (some (item_of job)) none apart))
                  (h.holds k small)
          ]
