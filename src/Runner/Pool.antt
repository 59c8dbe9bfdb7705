-- ===== src/Runner/Pool.antt =====
-- The anchor pool of src/uwb_net_runner.c. Its scores are `float`; the arithmetic on them is a
-- parameter.
pub mod Distinct
use tag_testting.Common.{
  ℕ, suc, zero, ◌+◌, Bool, true, false, ◌&&◌, not, Option, none, some, List, [], ◌∷◌, ◌==◌, ltb,
  if◌then◌else◌, map, ℤ, u8, get_or, set, length, take, replicate,
}

abbrev pub anchor_pool_max : ℕ
anchor_pool_max = 6

abbrev pub anchor_select_max : ℕ
anchor_select_max = 4

-- What the pool does with a `float`: the score of a response, the moving average with `EMA_ALPHA`, the
-- decay with `EMA_DECAY`, and the comparison.
pub record Scores : Type 1 where
  pub Score : Type 0
  pub zero_score : Score
  pub score_of : ℤ → ℕ → Score
  pub averaged : Score → Score → Score
  pub decayed : Score → Score
  pub is_less : Score → Score → Bool

module _ (F : Scores) where
  open F use {Score, zero_score, score_of, averaged, decayed, is_less}

  -- `anchor_entry_t`
  pub record AnchorEntry : Type 0 where
    pub id : ℕ
    pub ema_score : Score
    pub valid : Bool
    pub seen : Bool

  abbrev pub empty_entry : AnchorEntry
  empty_entry = record { id = 0; ema_score = zero_score; valid = false; seen = false }

  -- The first loop of `anchor_pool_update`: the entry of the anchor, if there is one.
  unfoldable pub update_known : List AnchorEntry → ℕ → Score → Option (List AnchorEntry)
  update_known [] id score = none
  update_known (e ∷ es) id score =
      let later = update_known es id score in
      if e.valid && e.id == id
      then some (record e { ema_score = averaged score e.ema_score; seen = true } ∷ es)
      else elim later [ none ↦ none | some es' ↦ some (e ∷ es') ]

  -- The second loop: the first empty slot.
  unfoldable pub fill_empty : List AnchorEntry → ℕ → Score → Option (List AnchorEntry)
  fill_empty [] id score = none
  fill_empty (e ∷ es) id score =
      let later = fill_empty es id score in
      if not e.valid
      then some (record { id = id; ema_score = score; valid = true; seen = true } ∷ es)
      else elim later [ none ↦ none | some es' ↦ some (e ∷ es') ]

  -- The third loop, from a worst entry and the index after those it has seen.
  unfoldable pub find_worst : ℕ → Score → ℕ → List AnchorEntry → ℕ
  find_worst worst lowest i [] = worst
  find_worst worst lowest i (e ∷ es) =
      let lower = find_worst i e.ema_score (i + 1) es in
      let kept = find_worst worst lowest (i + 1) es in
      if is_less e.ema_score lowest then lower else kept

  -- The entry at an index takes the anchor; its flag `valid` stands.
  unfoldable pub evict_at : ℕ → List AnchorEntry → ℕ → Score → List AnchorEntry
  evict_at n [] id score = []
  evict_at zero (e ∷ es) id score = record e { id = id; ema_score = score; seen = true } ∷ es
  evict_at (suc n) (e ∷ es) id score = e ∷ evict_at n es id score

  abbrev pub worst_of : List AnchorEntry → ℕ
  worst_of [] = 0
  worst_of (e ∷ es) = find_worst 0 e.ema_score 1 es

  -- `anchor_pool_update`
  unfoldable pub anchor_pool_update : List AnchorEntry → ℕ → ℤ → ℕ → List AnchorEntry
  unfolding update_known fill_empty find_worst evict_at
  anchor_pool_update pool id cir_power cir_quality =
      let score = score_of cir_power cir_quality in
      elim (update_known pool id score) [
        | some pool' ↦ pool'
        | none ↦ elim (fill_empty pool id score) [
          | some pool' ↦ pool'
          | none ↦ evict_at (worst_of pool) pool id score
        ]
      ]

  -- `anchor_pool_decay_missed`
  unfoldable pub anchor_pool_decay_missed : List AnchorEntry → List AnchorEntry
  anchor_pool_decay_missed [] = []
  anchor_pool_decay_missed (e ∷ es) =
      (if e.valid && not e.seen then record e { ema_score = decayed e.ema_score } else e)
      ∷ anchor_pool_decay_missed es

  -- The reset of the flags at the start of `run_discovery`.
  unfoldable pub clear_seen : List AnchorEntry → List AnchorEntry
  clear_seen [] = []
  clear_seen (e ∷ es) = record e { seen = false } ∷ clear_seen es

  -- The first loop of `anchor_pool_rebuild_selected`.
  unfoldable pub valid_entries : List AnchorEntry → List AnchorEntry
  valid_entries [] = []
  valid_entries (e ∷ es) = let rest = valid_entries es in if e.valid then e ∷ rest else rest

  -- The inner loop of its insertion sort. The sorted part is the list of its entries from the last
  -- one down, so that the key moves past the entries with a lower score.
  unfoldable pub insert_entry : AnchorEntry → List AnchorEntry → List AnchorEntry
  insert_entry key [] = key ∷ []
  insert_entry key (x ∷ sorted) =
      let rest = insert_entry key sorted in
      if is_less x.ema_score key.ema_score then x ∷ rest else key ∷ x ∷ sorted

  -- Its outer loop.
  unfoldable pub insert_entries : List AnchorEntry → List AnchorEntry → List AnchorEntry
  insert_entries sorted [] = sorted
  insert_entries sorted (x ∷ xs) = insert_entries (insert_entry x sorted) xs

  unfoldable pub best_first : List AnchorEntry → List AnchorEntry → List AnchorEntry
  best_first [] acc = acc
  best_first (x ∷ xs) acc = best_first xs (x ∷ acc)

  abbrev pub ids : List AnchorEntry → List ℕ
  ids [] = []
  ids (e ∷ es) = e.id ∷ ids es

  -- `anchor_pool_rebuild_selected`: `selected`, of length `n_selected`.
  unfoldable pub anchor_pool_rebuild_selected : List AnchorEntry → List ℕ
  unfolding valid_entries insert_entries best_first
  anchor_pool_rebuild_selected pool =
      ids (take anchor_select_max (best_first (insert_entries [] (valid_entries pool)) []))

  -- The responses that came into the window of `run_discovery`, in order.
  unfoldable pub collect_responses : List AnchorEntry → List (ℕ × ℤ × ℕ) → List AnchorEntry
  collect_responses pool [] = pool
  collect_responses pool ((src, cir_power, cir_quality) ∷ later) =
      collect_responses (anchor_pool_update pool (u8 src) cir_power cir_quality) later

  -- `run_discovery`: the pool, and the selection after it. The Boolean is whether the broadcast was
  -- sent; without it the window is not opened.
  unfoldable pub run_discovery :
      List AnchorEntry → Bool → List (ℕ × ℤ × ℕ) → List AnchorEntry × List ℕ
  unfolding clear_seen collect_responses
  run_discovery pool sent responses =
      let cleared = clear_seen pool in
      let pool' =
        anchor_pool_decay_missed (if sent then collect_responses cleared responses else cleared) in
      (pool', anchor_pool_rebuild_selected pool')
