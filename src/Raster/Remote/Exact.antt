-- ===== src/Raster/Remote/Exact.antt =====
-- `read_range_into`, `read_range` and `read_exact_range` of http_range.rs on a coherent source.
use raster_h.Raster.Remote.{
  Bytes, Outcome, ◌>>=◌, done, copy_from_complete, RemoteHttpSource, Read, after_complete,
  read_range_into, read_range, read_exact_range,
}
use raster_h.Raster.Remote.Slices.{slice, length-slice, copy_into_lem, range-slice, drop-take}
use raster_h.Raster.Remote.Coherent.{IsCoherent}
use raster_h.Raster.Remote.Reads.{Delivers, read_sparse-Delivers}
use raster_h.Common.{
  ℕ, zero, suc, ◌+◌, ◌-◌, ◌≤◌, ◌<◌, ◌≡◌, ◌⊎◌, inl, inr, refl, ap, ◌∙◌, subst, true, false, ◌||◌,
  none, some, List, [], ◌∷◌, ◌++◌, append-nil, length, take, drop, replicate, min, leb, ltb, ◌==◌,
  if◌then◌else◌, ok, err, RasterH3Error, invalid_parameter, length-take, arith, Bool-cases,
  Option-cases, ==_iff, length-drop, length-replicate,
}

drop-take_self : (n : ℕ) (xs : Bytes) → drop n (take n xs) ≡ []
drop-take_self n xs =
    drop-take n n xs ∙ ap (λ m. take m (drop n xs)) (let e : n - n ≡ 0 = omega arith in e)

module _ (file : Bytes) (s : RemoteHttpSource) (c : IsCoherent file s) where
  copy_from_complete-whole :
      (offset n : ℕ) (out full : Bytes)
      → s.cache.complete_file ≡ some full
      → 0 < n
      → offset + n ≤ length file
      → length out ≡ n
      → copy_from_complete s.cache offset out ≡ done (some (n, slice file offset n ++ drop n out))
  unfolding copy_from_complete
  copy_from_complete-whole offset n out full e pos fits l =
      let same : full ≡ file = c.whole full e in
      let inside : (leb (length file) offset || (length out == 0)) ≡ false = ground arith in
      let all : min (length out) (length file - offset) ≡ n = omega arith in
      rw (e, copy_from_complete, same, inside, all, range-slice file offset n fits, ◌>>=◌)
        (rw
          (
            copy_into_lem n (slice file offset n) out (length-slice file offset n fits)
                (omega arith),
            ◌>>=◌,
          )
          refl)

  -- On a source that is coherent with the file a read into a buffer never panics. It answers as many
  -- bytes as the buffer takes and the file has from the offset on, writes those of the file to the
  -- front of the buffer, keeps the rest of it, and leaves a coherent source with the same transport;
  -- or it fails with what the transport answered for a range inside the file.
  pub read_range_into-Delivers :
      (offset : ℕ) (out : Bytes)
      → Delivers file s offset
          (min (length out) (length file - offset))
          out
          (read_range_into s offset out)
  unfolding read_range_into
  read_range_into-Delivers offset out =
      elim (Bool-cases (leb s.total_size offset || (length out == 0))) [
        | inl none_left ↦
            let e : min (length out) (length file - offset) ≡ 0 = ground (arith, c.sized) in
            rw (e, none_left) (refl, refl, c, refl)
        | inr some_left ↦
            let e : min (length out) (s.total_size - offset)
                ≡ min (length out) (length file - offset) =
              ap (λ t. min (length out) (t - offset)) c.sized in
            rw (some_left, e)
              (some_bytes (min (length out) (length file - offset)) (ground (arith, c.sized))
                (ground (arith, c.sized)) (omega arith))
      ]
    where
      some_bytes :
          (n : ℕ)
          → 0 < n
          → offset + n ≤ length file
          → n ≤ length out
          → Delivers file s offset n out
              (copy_from_complete s.cache offset (take n out) >>= after_complete s offset n out)
      some_bytes n pos fits room = elim (Option-cases s.cache.complete_file) [
        | inl sparse ↦
            rw (sparse, copy_from_complete, ◌>>=◌, after_complete)
              (read_sparse-Delivers file s c offset n out pos fits room)
        | inr (full, e) ↦
            rw
              (
                copy_from_complete-whole offset n (take n out) full e pos fits
                    (omega (arith, length-take n out)),
                ◌>>=◌,
                after_complete,
              )
              (
                refl,
                ap (λ b. b ++ drop n out)
                    (rw (drop-take_self n out) (append-nil (slice file offset n))),
                c,
                refl,
              )
      ]

-- Where the transport failed: on a range inside the file.
abbrev pub Failed : Bytes → RemoteHttpSource → RasterH3Error → Type 0
Failed file s e =
    (a b : ℕ) × (a ≤ b)
    × (b < length file)
    × (s.transport.fetch_range a b (some s.total_size) ≡ err e)

-- What `read_range` answers: as many of the bytes as the file has.
abbrev Reaches : Bytes → RemoteHttpSource → ℕ → ℕ → Outcome (Bytes × RemoteHttpSource) → Type 0
Reaches file s offset n none = ⊥
Reaches file s offset n (some (err e)) = Failed file s e
Reaches file s offset n (some (ok (bytes, s'))) =
    (bytes ≡ slice file offset (min n (length file - offset)))
    × IsCoherent file s'
    × (s'.transport ≡ s.transport)

take-length {ℓ} : {A : Type ℓ} (n : ℕ) (xs ys : List A) → length xs ≡ n → take n (xs ++ ys) ≡ xs
take-length zero [] ys e = refl
take-length (suc n) [] ys e = absurd (omega arith)
take-length zero (x ∷ xs) ys e = absurd (omega arith)
take-length (suc n) (x ∷ xs) ys e = ap (λ t. x ∷ t) (take-length n xs ys (omega arith))

length-slice-min :
    (file : Bytes) (offset n : ℕ)
    → length (slice file offset (min n (length file - offset))) ≡ min n (length file - offset)
length-slice-min file offset n =
    omega (
      arith,
      length-take (min n (length file - offset)) (drop offset file),
      length-drop offset file,
    )

read_range-Reaches :
    (file : Bytes) (s : RemoteHttpSource) (offset n : ℕ)
    → IsCoherent file s
    → Reaches file s offset n (read_range s offset n)
unfolding read_range
read_range-Reaches file s offset n c = go (read_range_into s offset (replicate n 0)) (
    subst
      (λ k.
        Delivers file s offset (min k (length file - offset)) (replicate n 0)
          (read_range_into s offset (replicate n 0)))
      (length-replicate n 0) (read_range_into-Delivers file s c offset (replicate n 0)))
  where
    go :
        (r : Read)
        → Delivers file s offset (min n (length file - offset)) (replicate n 0) r
        → Reaches file s offset n (r >>= λ (k, buf, s'). done (take k buf, s'))
    go none d = d
    go (some (err e)) d = d
    go (some (ok (k, buf, s'))) (count, same, kept, t) = (
      rw (count, same)
          (take-length (min n (length file - offset)) _ _ (length-slice-min file offset n)),
      kept,
      t,
    )

-- What an exact read answers: the file's bytes where the range lies in the file, and an error
-- where it does not or where the transport failed. It never panics and never returns fewer bytes.
abbrev pub Exactly : Bytes → RemoteHttpSource → ℕ → ℕ → Outcome (Bytes × RemoteHttpSource) → Type 0
Exactly file s offset n none = ⊥
Exactly file s offset n (some (err e)) =
    ((length file < offset + n) × (e ≡ invalid_parameter)) ⊎ Failed file s e
Exactly file s offset n (some (ok (bytes, s'))) =
    (offset + n ≤ length file)
    × (bytes ≡ slice file offset n)
    × IsCoherent file s'
    × (s'.transport ≡ s.transport)

-- On a source that is coherent with the file an exact read never panics. It answers the `n` bytes
-- of the file from the offset on, which are then all inside the file, and leaves a coherent source
-- with the same transport; or it fails, with an invalid parameter where they go beyond the end of
-- the file, or with what the transport answered for a range inside the file.
pub read_exact_range-Exactly :
    (file : Bytes) (s : RemoteHttpSource) (offset n : ℕ)
    → IsCoherent file s
    → Exactly file s offset n (read_exact_range s offset n)
unfolding read_exact_range
read_exact_range-Exactly file s offset n c = elim (Bool-cases (ltb s.total_size offset)) [
  | inl beyond ↦ rw beyond (inl (ground (arith, c.sized), refl))
  | inr within ↦ elim (Bool-cases (n == 0)) [
    | inl empty ↦
        let z : n ≡ 0 = ground arith in
        rw (within, empty, z) (ground (arith, c.sized), refl, c, refl)
    | inr nonempty ↦ elim (Bool-cases (ltb (s.total_size - offset) n)) [
      | inl short ↦ rw (within, nonempty, short) (inl (ground (arith, c.sized), refl))
      | inr fits ↦
          rw (within, nonempty, fits)
            (go (read_range s offset n) (ground (arith, c.sized))
              (read_range-Reaches file s offset n c))
    ]
  ]
]
  where
    go :
        (r : Outcome (Bytes × RemoteHttpSource))
        → offset + n ≤ length file
        → Reaches file s offset n r
        → Exactly file s offset n (
            r >>= λ (buf, s').
            if length buf == n then done (buf, s') else some (err invalid_parameter))
    go none inside d = d
    go (some (err e)) inside d = inr d
    go (some (ok (bytes, s'))) inside (same, kept, t) =
        let all : min n (length file - offset) ≡ n = omega arith in
        let exact : bytes ≡ slice file offset n = same ∙ ap (slice file offset) all in
        let full : (length bytes == n) ≡ true =
          (==_iff (length bytes) n).1 (ap length exact ∙ length-slice file offset n inside) in
        rw full (inside, exact, kept, t)
