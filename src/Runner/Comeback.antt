-- ===== src/Runner/Comeback.antt =====
-- A cancelled alert over a reset: src/uwb_net_runner.c and src/tag_alert.c together.
use tag_testting.Common.{ℕ, ◌≡◌, ◌∙◌, ap, true, List, if◌then◌else◌}
use tag_testting.Storage.{Nvs, IsLawful, Storage}
use tag_testting.Alert.Core.{help, cancelling, off}
use tag_testting.Alert.Persist.{tag_alert_init}
use tag_testting.Alert.Persist.Reboot.{AlertOp, Writes, run_ops, underway, alert_survives_reset}
use tag_testting.Runner.{Runner, Turn}
use tag_testting.Runner.Superframe.{run}
use tag_testting.Runner.Alerts.{Uncalled, cancel_never_sent}

module _ (N : Nvs) where
  -- On a flash that takes every write: a tag whose alert was cancelled, and that has then gone through
  -- any superframes in which no other call lands, calls for help again after a reset, with the epoch
  -- of the cancelled alert.
  pub cancel_undone_by_reset :
      IsLawful N
      → Writes N
      → (s : Storage N) (eui : List ℕ) (ops : List AlertOp) → s.fs_ready ≡ true
      → let t = run_ops N (tag_alert_init N s eui) ops in
        t.core.state ≡ cancelling
        → (r : Runner N) (ts : List (Turn N)) → Uncalled N ts
        → r.alert ≡ t
        → let t' = tag_alert_init N (run N r ts).0.alert.storage eui in
          (t'.core.state ≡ help) × (t'.core.epoch ≡ t.core.epoch)
  cancel_undone_by_reset L w s eui ops ready c r ts calm same =
      let t = run_ops N (tag_alert_init N s eui) ops in
      let kept = (cancel_never_sent N r ts (ap (λ a. a.core.state) same ∙ c) calm).0 ∙ same in
      let back = alert_survives_reset N L w s eui ops ready in
      rw kept (back.1 ∙ ap (λ st. if underway st then help else off) c, back.0)
