-- ===== src/Alert/Core/Schedule.antt =====
-- The alert's life: raise, repeat, cancel, and the bounded run of cancels.
use tag_testting.Common.{
  ℕ, zero, suc, ◌+◌, ◌-◌, ◌^◌, ◌≤◌, ◌<◌, ◌≡◌, ◌≢◌, ◌⊎◌, ◌↔◌, List, [], ◌∷◌, true, false, none, some,
  arith, u32, sub32, if◌then◌else◌, newer8, length, ◌==◌,
}
use tag_testting.Alert.Message.{state_help, state_cancel}
use tag_testting.Alert.Core.{
  off, help, cancelling, AlertCore, init, raise, cancel, due, sent, cancel_repeats, repeat_ms,
}

-- A cancel is in progress exactly while cancels are left to send.
record Counted (c : AlertCore) : Type 0 where
  left : c.state ≡ cancelling → (0 < c.cancels_left) × (c.cancels_left ≤ cancel_repeats)

init-Counted : (e : ℕ) → Counted (init e)
unfolding init
init-Counted e = ground arith

-- Every operation keeps a running cancel between 1 and `cancel_repeats` frames from its end, so the
-- countdown never wraps.
step-Counted :
    (c : AlertCore) (now : ℕ)
    → Counted c
    → Counted (raise c now).0
      × Counted (cancel c now)
      × Counted (due c now).0
      × Counted (sent c now)
unfolding raise cancel due sent
step-Counted c now h = ground arith

-- A raise takes a new, serially newer epoch and makes the alert due at once, unless a HELP is
-- active: then nothing changes. A due frame names that epoch and HELP.
pub raise_lem :
    (c : AlertCore) (now : ℕ)
    → c.epoch < 2 ^ 8
    → now < 2 ^ 32
    → let (c', fresh) = raise c now in
      (c'.state ≡ help)
      × ((c.state ≡ help) × (c' ≡ c) × (fresh ≡ false)
          ⊎ (c.state ≢ help)
            × (fresh ≡ true)
            × (newer8 c'.epoch c.epoch ≡ true)
            × ((due c' now).1
                ≡ some (record { state_out = state_help; epoch_out = c'.epoch; rep_out = 0 })))
unfolding raise due newer8 sub32
raise_lem c now h w = ground arith

-- Cancelling keeps the epoch, so the CANCEL names the HELP that it ends; outside HELP it does
-- nothing.
cancel_lem :
    (c : AlertCore) (now : ℕ)
    → now < 2 ^ 32
    → let c' = cancel c now in
      (c'.epoch ≡ c.epoch)
      × ((c.state ≢ help) × (c' ≡ c)
          ⊎ (c.state ≡ help)
            × (c'.state ≡ cancelling)
            × ((due c' now).1
                ≡ some (record { state_out = state_cancel; epoch_out = c.epoch; rep_out = 0 })))
unfolding cancel due sub32
cancel_lem c now w = ground arith

-- Frames sent at the given times.
unfoldable pub sends : AlertCore → List ℕ → AlertCore
sends c [] = c
sends c (t ∷ ts) = sends (sent c t) ts

sent-countdown :
    (c : AlertCore) (now k : ℕ)
    → c.state ≡ cancelling
    → c.cancels_left ≡ suc k
    → k < 2 ^ 8 - 1
    → ((sent c now).state ≡ (if k == 0 then off else cancelling))
      × ((sent c now).cancels_left ≡ k)
      × ((sent c now).epoch ≡ c.epoch)
unfolding sent
sent-countdown c now k s l h = ground arith

countdown :
    (k : ℕ) (c : AlertCore) (ts : List ℕ)
    → c.state ≡ cancelling
    → c.cancels_left ≡ suc k
    → k < 2 ^ 8 - 1
    → length ts ≤ suc k
    → ((sends c ts).state ≡ (if length ts == suc k then off else cancelling))
      × ((sends c ts).epoch ≡ c.epoch)
unfolding sends
countdown k c [] s l h n = ground arith
countdown zero c (t ∷ []) s l h n = ground (arith, sent-countdown c t 0 s l h)
countdown zero c (t ∷ u ∷ ts) s l h n = absurd (omega arith)
countdown (suc k) c (t ∷ ts) s l h n =
    ground (arith, sent-countdown c t (suc k) s l h, countdown k (sent c t) ts)

-- A cancelled alert goes quiet after exactly `cancel_repeats` frames, whenever they are sent: with
-- fewer it is still cancelling, and its epoch does not change.
pub cancel_terminates :
    (c : AlertCore) (now : ℕ) (ts : List ℕ)
    → c.state ≡ help
    → length ts ≤ cancel_repeats
    → let done = sends (cancel c now) ts in
      (done.state ≡ (if length ts == cancel_repeats then off else cancelling))
      × (done.epoch ≡ c.epoch)
unfolding cancel
cancel_terminates c now ts s n = ground (arith, countdown 5 (cancel c now) ts)

-- A HELP repeats for ever, `repeat_ms` apart: after a frame is sent at `t` the next is not due
-- before `t + repeat_ms` and is due from then on up to half the clock's range, also where the
-- clock wraps.
pub repeat_schedule :
    (c : AlertCore) (t d : ℕ)
    → c.state ≡ help
    → t < 2 ^ 32
    → d < 2 ^ 31
    → let (c', frame) = due (sent c t) (u32 (t + d)) in
      (c'.state ≡ help) × ((frame ≢ none) ↔ (repeat_ms ≤ d))
unfolding due sent sub32
repeat_schedule c t d s ht hd = ground arith
