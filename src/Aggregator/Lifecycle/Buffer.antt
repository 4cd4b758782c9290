-- ===== src/Aggregator/Lifecycle/Buffer.antt =====
-- The output buffer of lifecycle.rs: the order of its records and the account of their bytes.
use raster_h.Aggregator.Lifecycle.{
  OutputBuffer, push_sized, popped, pop_front, take_rounds, take_batch, drain_rounds, drain_into,
}
use raster_h.Common.{
  ℕ, zero, suc, ◌+◌, ◌-◌, ◌≤◌, ◌≡◌, refl, ap, min, List, [], ◌∷◌, ◌++◌, length, take, drop, map,
  arith,
}

module _ {R : Type 0} where
  abbrev pub total_bytes : List (R × ℕ) → ℕ
  total_bytes [] = 0
  total_bytes ((item, bytes) ∷ records) = bytes + total_bytes records

  abbrev pub items_of : List (R × ℕ) → List R
  items_of = map (λ p. p.0)

  -- The estimate is the sum of the sizes.
  abbrev pub IsCounted : OutputBuffer R → Type 0
  IsCounted b = b.estimated_bytes ≡ total_bytes b.records

  total_bytes-append :
      (xs ys : List (R × ℕ)) → total_bytes (xs ++ ys) ≡ total_bytes xs + total_bytes ys
  total_bytes-append [] ys = omega arith
  total_bytes-append (x ∷ xs) ys = omega (arith, total_bytes-append xs ys)

  -- A record that is pushed comes last, and the estimate stays the sum of the sizes.
  pub push_sized-IsCounted :
      (b : OutputBuffer R) (item : R) (bytes : ℕ)
      → IsCounted b
      → IsCounted (push_sized b item bytes)
  unfolding push_sized
  push_sized-IsCounted b item bytes h =
      omega (arith, h, total_bytes-append b.records ((item, bytes) ∷ []))

  abbrev buffer : List (R × ℕ) → ℕ → OutputBuffer R
  buffer records total = record { records = records; estimated_bytes = total }

  take_rounds-lem :
      (n : ℕ) (records : List (R × ℕ)) (total : ℕ)
      → n ≤ length records
      → total ≡ total_bytes records
      → ((take_rounds n (buffer records total)).0 ≡ items_of (take n records))
        × ((take_rounds n (buffer records total)).1.records ≡ drop n records)
        × IsCounted (take_rounds n (buffer records total)).1
  unfolding take_rounds pop_front popped
  take_rounds-lem zero records total le h = (refl, refl, h)
  take_rounds-lem (suc n) [] total le h = absurd (omega arith)
  take_rounds-lem (suc n) ((item, bytes) ∷ records) total le h =
      let (a, b, c) = take_rounds-lem n records (total - bytes) (omega arith) (omega arith) in
      (ap (λ t. item ∷ t) a, b, c)

  -- A batch is the first `max_rows` records, in the order in which they came, or all if there are
  -- fewer; the others stay, and the estimate is the sum of their sizes, never below zero on the way.
  pub take_batch-lem :
      (max_rows : ℕ) (b : OutputBuffer R)
      → IsCounted b
      → ((take_batch max_rows b).0 ≡ items_of (take (min max_rows (length b.records)) b.records))
        × ((take_batch max_rows b).1.records ≡ drop (min max_rows (length b.records)) b.records)
        × IsCounted (take_batch max_rows b).1
  unfolding take_batch
  take_batch-lem max_rows b h =
      take_rounds-lem (min max_rows (length b.records)) b.records b.estimated_bytes (omega arith) h

  -- The calls of the consumer, as a batch.
  drain_rounds-take_rounds :
      (i n : ℕ) (records : List (R × ℕ)) (total : ℕ)
      → (map (λ c. c.1) (drain_rounds i n (buffer records total)).0
          ≡ (take_rounds n (buffer records total)).0)
        × ((drain_rounds i n (buffer records total)).1 ≡ (take_rounds n (buffer records total)).1)
  unfolding drain_rounds take_rounds pop_front popped
  drain_rounds-take_rounds i zero records total = (refl, refl)
  drain_rounds-take_rounds i (suc n) [] total = drain_rounds-take_rounds (suc i) n [] total
  drain_rounds-take_rounds i (suc n) ((item, bytes) ∷ records) total =
      let (x, y) = drain_rounds-take_rounds (suc i) n records (total - bytes) in
      (ap (λ t. item ∷ t) x, y)

  -- Draining into a consumer calls it with the records of `take_batch`, in its order, answers
  -- the same count as the batch's room, and leaves the same buffer.
  pub drain_into-take_batch :
      (max_rows : ℕ) (b : OutputBuffer R)
      → ((drain_into max_rows b).0 ≡ min max_rows (length b.records))
        × (map (λ c. c.1) (drain_into max_rows b).1 ≡ (take_batch max_rows b).0)
        × ((drain_into max_rows b).2 ≡ (take_batch max_rows b).1)
  unfolding drain_into take_batch
  drain_into-take_batch max_rows b =
      let (x, y) =
        drain_rounds-take_rounds 0 (min max_rows (length b.records)) b.records b.estimated_bytes in
      (refl, x, y)
