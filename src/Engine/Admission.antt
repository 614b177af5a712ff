-- ===== src/Engine/Admission.antt =====
-- The alert of the access check is what the configured lists demand.

use rfguard.Common.Tests.{
  ℕ, ◌≡◌, ◌≢◌, ap, ◌∙◌, true, not, ◌&&◌, [], Option, none, some, if◌then◌else◌, arith,
}
use rfguard.Common.Text.{Text, text_eq, codes}
use rfguard.Common.Int.{pos}
use rfguard.Common.Maps.{Distinct}
use rfguard.Common.Clock.{Time}
use rfguard.Common.Float.{Float}
use rfguard.Model.{NormalizedEvent, Alert}
use rfguard.Config.{Config, AccessControlConfig}
use rfguard.Access.{normalize_uid, build_access_control, is_blacklisted, is_whitelisted}
use rfguard.Access.Policy.{policy, policy_lem}
use rfguard.Access.Uid.{normalize_uid-nil}
use rfguard.Engine.{Engine}
use rfguard.Engine.Monad.{cooldown_allow}
use rfguard.Engine.Evaluate.{
  evaluate_access, check_access, raise_access, stamp, blacklisted_uid, whitelist_violation,
}

-- The type and the severity of the alert that the lists of a configuration demand.
abbrev pub verdict : AccessControlConfig → Text → Text → Option (Text × Text)
verdict ac reader_id uid =
    if policy ac.blacklist ac.reader_blacklists reader_id uid
    then some (blacklisted_uid, codes "critical")
    else if ac.whitelist_only && not (policy ac.whitelist ac.reader_whitelists reader_id uid)
    then some (whitelist_violation, codes "high")
    else none

abbrev pub kind_of : {F : Type 0} → Option (Alert F) → Option (Text × Text)
kind_of none = none
kind_of (some a) = some (a.alert_type, a.severity)

build_access_control-flags :
    (ac : AccessControlConfig)
    → ((build_access_control ac).enabled ≡ ac.enabled)
      × ((build_access_control ac).whitelist_only ≡ ac.whitelist_only)
unfolding build_access_control
build_access_control-flags ac = ground arith

module _ {F : Type 0} ⦃d : Float F⦄ (clock : ℕ → Time) (cfg : Config F) where
  -- With an access control that is built from an enabled configuration, the alert about an event
  -- with a UID is the one that the lists demand, if the cooldown of the reader's window 0 lets it
  -- through. The keys of the lists by reader are distinct, as in every Go map.
  pub evaluate_access_lem :
      (ac : AccessControlConfig) (ev : NormalizedEvent) (e : Engine F)
      → e.access ≡ build_access_control ac
      → ac.enabled ≡ true
      → normalize_uid ev.uid ≢ []
      → Distinct ac.reader_blacklists
      → Distinct ac.reader_whitelists
      → kind_of (evaluate_access clock cfg ev e).0 ≡ (
          if (cooldown_allow clock ev.reader_id (pos 0) cfg.detection.alert_cooldown e).0
          then verdict ac ev.reader_id (normalize_uid ev.uid)
          else none)
  unfolding evaluate_access check_access raise_access stamp
  evaluate_access_lem ac ev e built on nonempty db dw =
      let u = normalize_uid ev.uid in
      let p = policy_lem ac ev.reader_id u on nonempty db dw in
      let black : is_blacklisted (some e.access) ev.reader_id u
          ≡ policy ac.blacklist ac.reader_blacklists ev.reader_id u =
        ap (λ a. is_blacklisted (some a) ev.reader_id u) built ∙ p.0 in
      let white : is_whitelisted (some e.access) ev.reader_id u
          ≡ policy ac.whitelist ac.reader_whitelists ev.reader_id u =
        ap (λ a. is_whitelisted (some a) ev.reader_id u) built ∙ p.1 in
      let enabled : e.access.enabled ≡ true =
        ap (λ a. a.enabled) built ∙ (build_access_control-flags ac).0 ∙ on in
      let only : e.access.whitelist_only ≡ ac.whitelist_only =
        ap (λ a. a.whitelist_only) built ∙ (build_access_control-flags ac).1 in
      ground (arith, black, white, enabled, only, normalize_uid-nil)
