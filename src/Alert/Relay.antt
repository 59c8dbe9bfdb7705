-- ===== src/Alert/Relay.antt =====
-- The relay decision of src/alert_relay.c, for anchors.
use tag_testting.Common.{
  ℕ, suc, ◌+◌, ◌-◌, ◌^◌, ◌≤◌, ◌<◌, ◌≡◌, refl, List, [], ◌∷◌, Bool, true, false, arith, ltb, ◌==◌,
  if◌then◌else◌, u8, All,
}
use tag_testting.Alert.Message.{Alert, hop_unknown}

-- `alert_should_relay`
unfoldable pub should_relay : Alert → ℕ → Bool → Bool
should_relay a my_hop is_gateway =
    if is_gateway
    then false
    else if a.ttl == 0
    then false
    else if my_hop == hop_unknown
    then true
    else ltb my_hop a.sender_hop

-- `alert_prepare_relay`; `ttl` is a `uint8_t`
unfoldable pub prepare_relay : Alert → ℕ → Alert
prepare_relay a my_hop = record a { sender_hop = my_hop; ttl = u8 (a.ttl + 2 ^ 8 - 1) }

-- The copy of a message as it goes out along a row of anchors, each of which relays it by its hop;
-- it stops at the first that does not.
unfoldable pub forward : Alert → List ℕ → Alert × ℕ
forward a [] = (a, 0)
forward a (h ∷ hs) =
    let (a', n) = forward (prepare_relay a h) hs in
    if should_relay a h false then (a', suc n) else (a, 0)

-- A message is relayed no more often than its `ttl` says, each relay takes one from it without
-- wrapping, and its origin, epoch, state and repeat number arrive as they were sent.
pub forward_lem :
    (a : Alert) (hops : List ℕ)
    → a.ttl < 2 ^ 8
    → let (out, n) = forward a hops in
      (out.ttl + n ≡ a.ttl)
      × (out.orig_eui ≡ a.orig_eui)
      × (out.epoch ≡ a.epoch)
      × (out.state ≡ a.state)
      × (out.repeat_seq ≡ a.repeat_seq)
unfolding forward should_relay prepare_relay
forward_lem a [] h = ground arith
forward_lem a (k ∷ ks) h = ground (arith, forward_lem (prepare_relay a k) ks)

-- Among anchors that know their distance to the gateway a message only moves towards it: each relay
-- lowers the hop that the message carries, so none makes more relays than its first hop.
pub forward-descends :
    (a : Alert) (hops : List ℕ)
    → All (λ h. h < hop_unknown) hops
    → let (out, n) = forward a hops in out.sender_hop + n ≤ a.sender_hop
unfolding forward should_relay prepare_relay
forward-descends a [] h = ground arith
forward-descends a (k ∷ ks) h = ground (arith, forward-descends (prepare_relay a k) ks h.1)

-- The gateway relays nothing.
gateway_silent : (a : Alert) (h : ℕ) → should_relay a h true ≡ false
unfolding should_relay
gateway_silent a h = refl
