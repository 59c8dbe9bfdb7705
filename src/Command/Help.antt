-- ===== src/Command/Help.antt =====
-- The command `help on` of src/tag_cmd.c, from its bytes to the alert after a reset.
use tag_testting.Common.{
  ℕ, zero, suc, ◌≡◌, refl, ◌∙◌, Bool, true, List, [], ◌∷◌, ◌++◌, take, All, arith,
}
use tag_testting.Storage.{Nvs, IsLawful}
use tag_testting.Alert.Core.{help, raise}
use tag_testting.Alert.Persist.{TagAlert, tag_alert_init, tag_alert_raise, tag_alert_epoch}
use tag_testting.Alert.Persist.Reboot.{Mirrors, Writes, raise-Mirrors, reset-Mirrors}
use tag_testting.Cal.Run.Command.{command_of, trim_eol, c_string, is_eol}
use tag_testting.Command.{codes}
use tag_testting.Command.Handler.{
  Tag, Reports, help_on, cases_of, first_case, dispatch, tag_cmd_on_rx,
}

-- Ends of line only.
abbrev pub Eols : List ℕ → Type 0
Eols = All (λ b. is_eol b ≡ true)

trim-Eols : (n : ℕ) (es : List ℕ) → Eols es → trim_eol (take n es) ≡ []
unfolding trim_eol
trim-Eols zero es h = refl
trim-Eols (suc n) [] h = refl
trim-Eols (suc n) (e ∷ es) h = rw (trim-Eols n es h.1, h.0) refl

-- The command in the buffer, whatever ends of line follow it.
help_on_command : (es : List ℕ) → Eols es → command_of (codes "help on" ++ es) ≡ codes "help on"
unfolding command_of trim_eol c_string
help_on_command es h = rw (trim-Eols 16 es h) refl

dispatch_help_on :
    (N : Nvs) (cal_mode : Bool) (s : Tag N) (r : Reports) (now : ℕ) (raw : List ℕ)
    → dispatch N cal_mode s r now (codes "help on") raw ≡ (
      record s { alert = tag_alert_raise N s.alert now },
      help_on (tag_alert_epoch N (tag_alert_raise N s.alert now)) ∷ [],
      [],
    )
unfolding dispatch cases_of first_case
dispatch_help_on N cal_mode s r now raw = refl

raise_help : (N : Nvs) (t : TagAlert N) (now : ℕ) → (tag_alert_raise N t now).core.state ≡ help
unfolding tag_alert_raise raise
raise_help N t now = ground arith

-- `help on`, with any ends of line after it, raises the alert: it is active, and the reply names its
-- epoch; and on a lawful flash that takes every write, on which the alert was as in RAM, the tag
-- calls for help with that epoch again after a reset.
pub help_on_persists :
    (N : Nvs) (cal_mode : Bool) (s : Tag N) (r : Reports) (now : ℕ) (es eui : List ℕ)
    → IsLawful N
    → Writes N
    → Mirrors N s.alert
    → Eols es
    → let (s', replies, orders) = tag_cmd_on_rx N cal_mode s r now (codes "help on" ++ es) in
      let t' = tag_alert_init N s'.alert.storage eui in
      (s'.alert.core.state ≡ help)
      × (replies ≡ help_on s'.alert.core.epoch ∷ [])
      × (t'.core.state ≡ help)
      × (t'.core.epoch ≡ s'.alert.core.epoch)
unfolding tag_cmd_on_rx tag_alert_epoch
help_on_persists N cal_mode s r now es eui L w m h =
    let up = raise_help N s.alert now in
    let kept =
      reset-Mirrors N (tag_alert_raise N s.alert now) eui (raise-Mirrors N L w s.alert now m) in
    rw (help_on_command es h, dispatch_help_on N cal_mode s r now (codes "help on" ++ es))
      (up, refl, kept.1 ∙ rw up refl, kept.0)
