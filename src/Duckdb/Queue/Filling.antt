-- ===== src/Duckdb/Queue/Filling.antt =====
-- The callback of a refill of record_queue.rs, record by record, and the chunk that is left.
use raster_h.Duckdb.Queue.{Refilling, hand_out, emit, emit_all, flush}
use raster_h.Common.{
  ℕ, suc, ◌≤◌, ◌<◌, ◌≡◌, ◌≢◌, refl, sym, ap, ap₂, ◌∙◌, subst, Option, none, some, List, [], ◌∷◌,
  ◌++◌, append-nil, append_assoc, length, length-append, All, All-append, ◌==◌, ==_iff, if-elim,
  arith,
}

module _ {R : Type 0} where
  abbrev pub concat : List (List R) → List R
  concat [] = []
  concat (b ∷ bs) = b ++ concat bs

  abbrev pub batch_list : Option (List R) → List (List R)
  batch_list none = []
  batch_list (some b) = b ∷ []

  pub concat-append : (xs ys : List (List R)) → concat (xs ++ ys) ≡ concat xs ++ concat ys
  concat-append [] ys = refl
  concat-append (x ∷ xs) ys =
      ap (λ t. x ++ t) (concat-append xs ys) ∙ sym (append_assoc x (concat xs) (concat ys))

  -- All batches, the caller's first.
  abbrev pub batches : Refilling R → List (List R)
  batches s = batch_list s.my_batch ++ s.ready_q

  -- As many records as the batches say: the callback has made full batches only, and its chunk is
  -- not full; without a batch for the caller there is none in the queue.
  pub record IsFilling (size : ℕ) (seen : List R) (s : Refilling R) : Type 0 where
    pub all_there : concat (batches s) ++ s.current_chunk ≡ seen
    pub full : All (λ b. length b ≡ size) (batches s)
    pub begun : length s.current_chunk < size
    pub mine_first : s.my_batch ≡ none → s.ready_q ≡ []

  abbrev pub filling : Option (List R) → List (List R) → List R → Refilling R
  filling mine ready chunk = record { my_batch = mine; ready_q = ready; current_chunk = chunk }

  hand_out-batches :
      (mine : Option (List R)) (ready : List (List R)) (chunk batch : List R)
      → (mine ≡ none → ready ≡ [])
      → (batches (hand_out mine batch (filling mine ready chunk))
          ≡ (batch_list mine ++ ready) ++ (batch ∷ []))
        × ((hand_out mine batch (filling mine ready chunk)).current_chunk ≡ [])
        × ((hand_out mine batch (filling mine ready chunk)).my_batch ≢ none)
  unfolding hand_out
  hand_out-batches none ready chunk batch first = (rw (first refl) refl, refl, λ e. ground arith)
  hand_out-batches (some mine) ready chunk batch first = (refl, refl, λ e. ground arith)

  concat-last : (bs : List (List R)) (b : List R) → concat (bs ++ (b ∷ [])) ≡ concat bs ++ b
  concat-last bs b = concat-append bs (b ∷ []) ∙ ap (λ t. concat bs ++ t) (append-nil b)

  emit-IsFilling :
      (size : ℕ) (seen : List R) (rec : R) (s : Refilling R)
      → 0 < size
      → IsFilling size seen s
      → IsFilling size (seen ++ (rec ∷ [])) (emit size rec s)
  unfolding emit
  emit-IsFilling size seen rec s pos h =
      let chunk = s.current_chunk ++ (rec ∷ []) in
      let long : length chunk ≡ suc (length s.current_chunk) =
        omega (arith, length-append s.current_chunk (rec ∷ [])) in
      let more : concat (batches s) ++ chunk ≡ seen ++ (rec ∷ []) =
        sym (append_assoc (concat (batches s)) s.current_chunk (rec ∷ []))
        ∙ ap (λ t. t ++ (rec ∷ [])) h.all_there in
      if-elim (IsFilling size (seen ++ (rec ∷ []))) (length chunk == size) _ _
        (λ e.
          let (bs, emptied, mine) =
            hand_out-batches s.my_batch s.ready_q s.current_chunk chunk h.mine_first in
          record {
            all_there =
                ap₂ (λ b c. concat b ++ c) bs emptied
                ∙ append-nil (concat (batches s ++ (chunk ∷ [])))
                ∙ concat-last (batches s) chunk
                ∙ more;
            full = subst (All (λ b. length b ≡ size)) (sym bs) (
                All-append (λ b. length b ≡ size) (batches s) (chunk ∷ []) h.full
                  ((==_iff (length chunk) size).0 e, tt));
            begun = subst (λ c. length c < size) (sym emptied) pos;
            mine_first = λ none_left. absurd (mine none_left);
          })
        (λ e. record {
          all_there = more;
          full = h.full;
          begun = ground (arith, e, long, h.begun);
          mine_first = h.mine_first;
        })

  pub emit_all-IsFilling :
      (size : ℕ) (recs seen : List R) (s : Refilling R)
      → 0 < size
      → IsFilling size seen s
      → IsFilling size (seen ++ recs) (emit_all size recs s)
  unfolding emit_all
  emit_all-IsFilling size [] seen s pos h =
      subst (λ t. IsFilling size t s) (sym (append-nil seen)) h
  emit_all-IsFilling size (rec ∷ recs) seen s pos h =
      subst (λ t. IsFilling size t (emit_all size recs (emit size rec s)))
        (append_assoc seen (rec ∷ []) recs)
        (emit_all-IsFilling size recs (seen ++ (rec ∷ [])) (emit size rec s) pos
          (emit-IsFilling size seen rec s pos h))

  -- Batches of at most `size` records, none of them empty.
  abbrev pub IsBatch : ℕ → List R → Type 0
  IsBatch size b = (0 < length b) × (length b ≤ size)

  All-IsBatch :
      (size : ℕ) (bs : List (List R))
      → 0 < size
      → All (λ b. length b ≡ size) bs
      → All (IsBatch size) bs
  All-IsBatch size [] pos h = tt
  All-IsBatch size (b ∷ bs) pos h =
      ((omega (arith, h.0, pos), omega (arith, h.0)), All-IsBatch size bs pos h.1)

  -- What a refill hands out: the records in their order, the caller's batch first.
  pub record IsRefilled (size : ℕ) (emitted : List R) (mine : Option (List R))
      (ready : List (List R)) : Type 0 where
    pub all_there : concat (batch_list mine ++ ready) ≡ emitted
    pub sized : All (IsBatch size) (batch_list mine ++ ready)
    pub at_end : mine ≡ none → emitted ≡ []

  pub flush-IsRefilled :
      (size : ℕ) (seen chunk : List R) (s : Refilling R)
      → 0 < size
      → IsFilling size seen s
      → s.current_chunk ≡ chunk
      → IsRefilled size seen (flush chunk s).my_batch (flush chunk s).ready_q
  unfolding flush
  flush-IsRefilled size seen [] s pos h here = record {
    all_there = whole;
    sized = All-IsBatch size (batches s) pos h.full;
    at_end = λ e. sym whole ∙ rw (e, h.mine_first e) refl;
  }
    where
      whole : concat (batches s) ≡ seen
      whole =
          sym (append-nil (concat (batches s)))
          ∙ ap (λ c. concat (batches s) ++ c) (sym here)
          ∙ h.all_there
  flush-IsRefilled size seen (r ∷ rs) s pos h here =
      let (bs, emptied, mine) =
        hand_out-batches s.my_batch s.ready_q s.current_chunk (r ∷ rs) h.mine_first in
      let short : length (r ∷ rs) < size = subst (λ c. length c < size) here h.begun in
      record {
        all_there =
            ap concat bs
            ∙ concat-last (batches s) (r ∷ rs)
            ∙ ap (λ c. concat (batches s) ++ c) (sym here)
            ∙ h.all_there;
        sized = subst (All (IsBatch size)) (sym bs) (
            All-append (IsBatch size) (batches s) ((r ∷ rs) ∷ [])
              (All-IsBatch size (batches s) pos h.full) ((omega arith, omega (arith, short)), tt));
        at_end = λ e. absurd (mine e);
      }
