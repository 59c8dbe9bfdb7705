-- ===== src/Runner/Effects.antt =====
-- The effects of a superframe of src/uwb_net_runner.c by kind: those that transmit, and those that
-- only wait, listen, or concern the tag's own radio.
use tag_testting.Common.{
  ◌≡◌, refl, ap, Bool, true, false, not, ◌&&◌, List, [], ◌∷◌, ◌++◌, if◌then◌else◌, arith,
}
use tag_testting.Storage.{Nvs}
use tag_testting.Runner.{Runner, Turn, Effect, offer, choose_tier, wake_radio}
use tag_testting.Runner.Effect.{listens, tx_join, tx_keepalive, tx_alert, discovers, sweeps}
use tag_testting.Runner.Listen.{Aim, aim, wait, deadline_of}
use tag_testting.Runner.Superframe.{hear}

-- Nothing is transmitted.
unfoldable pub is_local : Effect → Bool
is_local (tx_join frame slot ok) = false
is_local (tx_keepalive frame slot ok) = false
is_local (tx_alert frame slot ok) = false
is_local (discovers src) = false
is_local (sweeps start_ms) = false
is_local _ = true

unfoldable pub all_local : List Effect → Bool
all_local [] = true
all_local (e ∷ es) = is_local e && all_local es

-- The effects that a test picks, in their order.
unfoldable pub pick : (Effect → Bool) → List Effect → List Effect
pick p [] = []
pick p (e ∷ es) = let rest = pick p es in if p e then e ∷ rest else rest

pub pick-append :
    (p : Effect → Bool) (xs ys : List Effect) → pick p (xs ++ ys) ≡ pick p xs ++ pick p ys
unfolding pick
pick-append p [] ys = refl
pick-append p (x ∷ xs) ys = ground (arith, pick-append p xs ys)

pub all_local-append :
    (xs ys : List Effect) → all_local xs ≡ true → all_local ys ≡ true → all_local (xs ++ ys) ≡ true
unfolding all_local
all_local-append [] ys h k = k
all_local-append (x ∷ xs) ys h k = ground (arith, all_local-append xs ys)

-- What transmits.
unfoldable pub is_tx : Effect → Bool
is_tx e = not (is_local e)

unfoldable pub is_alert_tx : Effect → Bool
is_alert_tx (tx_alert frame slot ok) = true
is_alert_tx _ = false

unfoldable pub is_sweep_tx : Effect → Bool
is_sweep_tx (sweeps start_ms) = true
is_sweep_tx _ = false

-- Every pick of transmissions.
pub OfTx : (Effect → Bool) → Type 0
OfTx p = (e : Effect) → is_local e ≡ true → p e ≡ false

pub is_tx-OfTx : OfTx is_tx
unfolding OfTx is_tx
is_tx-OfTx e h = ap not h

pub is_alert_tx-OfTx : OfTx is_alert_tx
unfolding OfTx is_alert_tx is_local
is_alert_tx-OfTx e h = ground arith

pub is_sweep_tx-OfTx : OfTx is_sweep_tx
unfolding OfTx is_sweep_tx is_local
is_sweep_tx-OfTx e h = ground arith

pub pick_local :
    (p : Effect → Bool) (es : List Effect) → OfTx p → all_local es ≡ true → pick p es ≡ []
unfolding pick all_local OfTx
pick_local p [] o h = refl
pick_local p (e ∷ es) o h = ground (arith, o e, pick_local p es o)

module _ (N : Nvs) where
  local-offer : (r : Runner N) (t : Turn N) → all_local (offer N r t).1 ≡ true
  unfolding offer wake_radio all_local is_local
  local-offer r t = ground arith

  local-wait : (r : Runner N) (t : Turn N) (a : Aim) → all_local (wait N r t a).2 ≡ true
  unfolding wait all_local is_local
  local-wait r t a = ground arith

  local-wake_radio : (r : Runner N) → all_local (wake_radio N r).1 ≡ true
  unfolding wake_radio all_local is_local
  local-wake_radio r = ground arith

  -- Up to the end of its beacon window a superframe transmits nothing.
  pub local-hear : (r : Runner N) (t : Turn N) → all_local (hear N r t).3 ≡ true
  unfolding hear all_local is_local
  local-hear r t =
      let r0 = (offer N r t).0 in
      let (r1, planned) = aim N (choose_tier N r0 t) in
      let (r2, aimed, napped) = wait N r1 t planned in
      let woke = (wake_radio N r2).1 in
      let opening =
        all_local-append (offer N r t).1 napped (local-offer r t) (local-wait r1 t planned) in
      all_local-append ((offer N r t).1 ++ napped ++ woke) (listens (deadline_of N aimed t) ∷ [])
        (all_local-append ((offer N r t).1 ++ napped) woke opening (local-wake_radio r2)) refl
