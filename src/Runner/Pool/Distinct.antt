-- ===== src/Runner/Pool/Distinct.antt =====
-- What the anchor pool of src/uwb_net_runner.c keeps, whatever the scores are.
use tag_testting.Common.{
  ℕ, suc, zero, ◌+◌, ◌≤◌, ◌≡◌, ◌∙◌, refl, Bool, true, false, ◌&&◌, Option, none, some, List, [],
  ◌∷◌, ◌==◌, if◌then◌else◌, ℤ, u8, length, take, arith,
}
use tag_testting.Runner.Pool.{
  Scores, AnchorEntry, anchor_select_max, update_known, fill_empty, evict_at, worst_of,
  anchor_pool_update, anchor_pool_decay_missed, clear_seen, valid_entries, insert_entry,
  insert_entries, best_first, ids, anchor_pool_rebuild_selected, collect_responses, run_discovery,
}

-- The occurrences of an id in a list.
pub occurrences : ℕ → List ℕ → ℕ
occurrences x [] = 0
occurrences x (y ∷ ys) = (if y == x then 1 else 0) + occurrences x ys

module _ (F : Scores) where
  -- The valid entries of an anchor.
  unfoldable pub entries_of : ℕ → List (AnchorEntry F) → ℕ
  entries_of x [] = 0
  entries_of x (e ∷ es) = (if e.valid && e.id == x then 1 else 0) + entries_of x es

  -- The new entries, or the old ones where there are none.
  abbrev or_old : Option (List (AnchorEntry F)) → List (AnchorEntry F) → List (AnchorEntry F)
  or_old none es = es
  or_old (some es') es = es'

  abbrev is_new : Option (List (AnchorEntry F)) → Bool
  is_new none = false
  is_new (some es') = true

  -- A known anchor keeps its entry, and an anchor that is not known has none.
  update_known_lem :
      (x id : ℕ) (score : F.Score) (es : List (AnchorEntry F))
      → let found = update_known F es id score in
        (entries_of x (or_old found es) ≡ entries_of x es)
        × (length (or_old found es) ≡ length es)
        × (is_new found ≡ false → entries_of id es ≡ 0)
  unfolding update_known entries_of
  update_known_lem x id score [] = ground arith
  update_known_lem x id score (e ∷ es) = ground (arith, update_known_lem x id score es)

  fill_empty_lem :
      (x id : ℕ) (score : F.Score) (es : List (AnchorEntry F))
      → let filled = fill_empty F es id score in
        (entries_of x (or_old filled es) ≤ (if id == x then 1 else 0) + entries_of x es)
        × (length (or_old filled es) ≡ length es)
  unfolding fill_empty entries_of
  fill_empty_lem x id score [] = ground arith
  fill_empty_lem x id score (e ∷ es) = ground (arith, fill_empty_lem x id score es)

  evict_at_lem :
      (x id n : ℕ) (score : F.Score) (es : List (AnchorEntry F))
      → (entries_of x (evict_at F n es id score) ≤ (if id == x then 1 else 0) + entries_of x es)
        × (length (evict_at F n es id score) ≡ length es)
  unfolding evict_at entries_of
  evict_at_lem x id n score [] = ground arith
  evict_at_lem x id zero score (e ∷ es) = ground arith
  evict_at_lem x id (suc n) score (e ∷ es) = ground (arith, evict_at_lem x id n score es)

  update_lem :
      (x id : ℕ) (p : ℤ) (q : ℕ) (es : List (AnchorEntry F))
      → entries_of id es ≤ 1
      → entries_of x es ≤ 1
      → (entries_of x (anchor_pool_update F es id p q) ≤ 1)
        × (length (anchor_pool_update F es id p q) ≡ length es)
  unfolding anchor_pool_update
  update_lem x id p q es one_id one_x =
      let score = F.score_of p q in
      ground (
        arith,
        update_known_lem x id score es,
        fill_empty_lem x id score es,
        evict_at_lem x id (worst_of F es) score es,
      )

  decay_lem :
      (x : ℕ) (es : List (AnchorEntry F))
      → (entries_of x (anchor_pool_decay_missed F es) ≡ entries_of x es)
        × (length (anchor_pool_decay_missed F es) ≡ length es)
  unfolding anchor_pool_decay_missed entries_of
  decay_lem x [] = ground arith
  decay_lem x (e ∷ es) = ground (arith, decay_lem x es)

  clear_lem :
      (x : ℕ) (es : List (AnchorEntry F))
      → (entries_of x (clear_seen F es) ≡ entries_of x es) × (length (clear_seen F es) ≡ length es)
  unfolding clear_seen entries_of
  clear_lem x [] = ground arith
  clear_lem x (e ∷ es) = ground (arith, clear_lem x es)

  -- Every anchor has at most one valid entry.
  abbrev pub IsDistinct : List (AnchorEntry F) → Type 0
  IsDistinct es = (x : ℕ) → entries_of x es ≤ 1

  collect_lem :
      (rs : List (ℕ × ℤ × ℕ)) (es : List (AnchorEntry F))
      → IsDistinct es
      → IsDistinct (collect_responses F es rs) × (length (collect_responses F es rs) ≡ length es)
  unfolding collect_responses
  collect_lem [] es h = (h, refl)
  collect_lem ((src, p, q) ∷ rs) es h =
      let es' = anchor_pool_update F es (u8 src) p q in
      let rest = collect_lem rs es' (λ x. (update_lem x (u8 src) p q es (h (u8 src)) (h x)).0) in
      (rest.0, rest.1 ∙ (update_lem 0 (u8 src) p q es (h (u8 src)) (h 0)).1)

  filled_lem :
      (sent : Bool) (rs : List (ℕ × ℤ × ℕ)) (es : List (AnchorEntry F))
      → IsDistinct es
      → let filled = if sent then collect_responses F es rs else es in
        IsDistinct filled × (length filled ≡ length es)
  filled_lem true rs es h = collect_lem rs es h
  filled_lem false rs es h = (h, refl)

  -- The selection: of the valid entries, each once.
  valid_lem :
      (x : ℕ) (es : List (AnchorEntry F))
      → occurrences x (ids F (valid_entries F es)) ≡ entries_of x es
  unfolding valid_entries entries_of occurrences
  valid_lem x [] = refl
  valid_lem x (e ∷ es) = ground (arith, valid_lem x es)

  insert_lem :
      (x : ℕ) (key : AnchorEntry F) (es : List (AnchorEntry F))
      → occurrences x (ids F (insert_entry F key es)) ≡ occurrences x (key.id ∷ ids F es)
  unfolding insert_entry occurrences
  insert_lem x key [] = refl
  insert_lem x key (e ∷ es) = ground (arith, insert_lem x key es)

  inserts_lem :
      (x : ℕ) (sorted es : List (AnchorEntry F))
      → occurrences x (ids F (insert_entries F sorted es))
        ≡ occurrences x (ids F sorted) + occurrences x (ids F es)
  unfolding insert_entries occurrences
  inserts_lem x sorted [] = omega arith
  inserts_lem x sorted (e ∷ es) =
      omega (arith, inserts_lem x (insert_entry F e sorted) es, insert_lem x e sorted)

  best_lem :
      (x : ℕ) (es acc : List (AnchorEntry F))
      → occurrences x (ids F (best_first F es acc))
        ≡ occurrences x (ids F es) + occurrences x (ids F acc)
  unfolding best_first occurrences
  best_lem x [] acc = omega arith
  best_lem x (e ∷ es) acc = omega (arith, best_lem x es (e ∷ acc))

  take_lem :
      (x n : ℕ) (es : List (AnchorEntry F))
      → (occurrences x (ids F (take n es)) ≤ occurrences x (ids F es))
        × (length (ids F (take n es)) ≤ n)
  unfolding occurrences
  take_lem x zero es = ground arith
  take_lem x (suc n) [] = ground arith
  take_lem x (suc n) (e ∷ es) = ground (arith, take_lem x n es)

  selected_lem :
      (x : ℕ) (es : List (AnchorEntry F))
      → (occurrences x (anchor_pool_rebuild_selected F es) ≤ entries_of x es)
        × (length (anchor_pool_rebuild_selected F es) ≤ anchor_select_max)
  unfolding anchor_pool_rebuild_selected occurrences
  selected_lem x es =
      let found = valid_entries F es in
      let sorted = insert_entries F [] found in
      let best = best_first F sorted [] in
      let cut = take_lem x anchor_select_max best in
      (omega (arith, cut.0, best_lem x sorted [], inserts_lem x [] found, valid_lem x es), cut.1)

  -- From a pool in which every anchor has at most one valid entry, a discovery leaves one of the same
  -- length and the same kind, and selects at most four anchors, each from the pool and none twice.
  pub discovery_selects :
      (es : List (AnchorEntry F)) (sent : Bool) (rs : List (ℕ × ℤ × ℕ))
      → IsDistinct es
      → let (es', selected) = run_discovery F es sent rs in
        IsDistinct es'
        × (length es' ≡ length es)
        × (length selected ≤ anchor_select_max)
        × ((x : ℕ) → (occurrences x selected ≤ entries_of x es') × (occurrences x selected ≤ 1))
  unfolding run_discovery
  discovery_selects es sent rs h =
      let cleared = clear_seen F es in
      let filled = if sent then collect_responses F cleared rs else cleared in
      let held = filled_lem sent rs cleared (λ x. omega (arith, (clear_lem x es).0, h x)) in
      let es' = anchor_pool_decay_missed F filled in
      let kept : IsDistinct es' = λ x. omega (arith, (decay_lem x filled).0, held.0 x) in
      (
        kept,
        (decay_lem 0 filled).1 ∙ held.1 ∙ (clear_lem 0 es).1,
        (selected_lem 0 es').1,
        λ x. ((selected_lem x es').0, omega (arith, (selected_lem x es').0, kept x)),
      )
