-- ===== src/Engine/Rules.antt =====
-- The rules of `evaluate`, its score and its severities.
use rfguard.Common.Tests.{
  ◌≡◌, ◌↔◌, Bool, true, ◌&&◌, ◌||◌, List, [], ◌∷◌, ◌++◌, arith, if◌then◌else◌, ltb,
}
use rfguard.Common.Lists.{length}
use rfguard.Common.Keys.{contains}
use rfguard.Common.Text.{Text, text_eq, codes}
use rfguard.Common.Int.{pos, leb_ℤ, ◌≤ℤ◌}
use rfguard.Common.Float.{Float, one_f}
use rfguard.Model.{WindowMetrics}
use rfguard.Config.{DetectionConfig}

abbrev pub excessive_attempt_rate : Text
excessive_attempt_rate = codes "excessive_attempt_rate"

abbrev pub failure_spike : Text
failure_spike = codes "failure_spike"

abbrev pub uid_spraying : Text
uid_spraying = codes "uid_spraying"

abbrev pub machine_timing : Text
machine_timing = codes "machine_timing"

abbrev pub attack_score : Text
attack_score = codes "attack_score"

-- `if b { rules = append(rules, rule) }`.
abbrev pub append_if : Bool → Text → List Text → List Text
append_if b rule rules = if b then rules ++ rule ∷ [] else rules

module _ {F : Type 0} ⦃d : Float F⦄ where
  -- `a > b`.
  abbrev pub gt_f : F → F → Bool
  gt_f a b = d.lt b a

  unfoldable pub score_of : DetectionConfig F → WindowMetrics F → F
  score_of cfg wm =
      d.add
        (d.add (d.add (d.mul cfg.weights.aps wm.aps) (d.mul cfg.weights.fr wm.fr))
          (d.mul cfg.weights.uds wm.uds))
        (d.mul cfg.weights.tv (d.div one_f (d.add wm.tv cfg.epsilon)))

  -- The tests of the five rules.
  abbrev pub too_fast : DetectionConfig F → WindowMetrics F → Bool
  too_fast cfg wm = gt_f wm.aps cfg.aps_threshold

  abbrev pub spikes : DetectionConfig F → WindowMetrics F → Bool
  spikes cfg wm = gt_f wm.fr cfg.failure_ratio_threshold && leb_ℤ cfg.min_attempts wm.attempts

  abbrev pub sprays : DetectionConfig F → WindowMetrics F → Bool
  sprays cfg wm = gt_f wm.uds cfg.uid_diversity_threshold && gt_f wm.aps cfg.aps_elevated_threshold

  abbrev pub ticks : DetectionConfig F → WindowMetrics F → Bool
  ticks cfg wm = d.lt wm.tv cfg.timing_variance_threshold && gt_f wm.aps cfg.aps_elevated_threshold

  abbrev pub attacks : DetectionConfig F → WindowMetrics F → Bool
  attacks cfg wm =
      gt_f (score_of cfg wm) cfg.attack_score_threshold
      && leb_ℤ cfg.min_attempts wm.attempts
      && gt_f wm.aps cfg.aps_elevated_threshold

  unfoldable pub rules_of : DetectionConfig F → WindowMetrics F → List Text
  rules_of cfg wm = append_if (attacks cfg wm) attack_score (
      append_if (ticks cfg wm) machine_timing (
        append_if (sprays cfg wm) uid_spraying (
          append_if (spikes cfg wm) failure_spike
            (append_if (too_fast cfg wm) excessive_attempt_rate []))))

  unfoldable pub severity_of : DetectionConfig F → WindowMetrics F → List Text → Text
  severity_of cfg wm rules =
      let score = score_of cfg wm in
      if gt_f score (d.mul cfg.attack_score_threshold (d.of_int (pos 2)))
        || gt_f wm.aps (d.mul cfg.aps_threshold (d.of_int (pos 2)))
      then codes "critical"
      else if gt_f score cfg.attack_score_threshold || ltb 1 (length rules)
      then codes "high"
      else codes "medium"

  -- The rules as the documentation states them.
  abbrev pub Rules : DetectionConfig F → WindowMetrics F → Text → Type 0 → Type 0
  Rules cfg wm rule condition = (contains rule (rules_of cfg wm) ≡ true) ↔ condition

  -- Each rule is reported exactly under its condition: the attempt rate above its threshold; the
  -- failure ratio above its threshold with enough attempts; the UID diversity above its threshold at
  -- an elevated rate; the timing variance below its threshold at an elevated rate; the score above
  -- its threshold with enough attempts at an elevated rate.
  pub rules_of_lem :
      (cfg : DetectionConfig F) (wm : WindowMetrics F)
      → Rules cfg wm excessive_attempt_rate (d.lt cfg.aps_threshold wm.aps ≡ true)
        × Rules cfg wm failure_spike
            ((d.lt cfg.failure_ratio_threshold wm.fr ≡ true) × (cfg.min_attempts ≤ℤ wm.attempts))
        × Rules cfg wm uid_spraying (
            (d.lt cfg.uid_diversity_threshold wm.uds ≡ true)
            × (d.lt cfg.aps_elevated_threshold wm.aps ≡ true))
        × Rules cfg wm machine_timing (
            (d.lt wm.tv cfg.timing_variance_threshold ≡ true)
            × (d.lt cfg.aps_elevated_threshold wm.aps ≡ true))
        × Rules cfg wm attack_score (
            (d.lt cfg.attack_score_threshold (score_of cfg wm) ≡ true)
            × (cfg.min_attempts ≤ℤ wm.attempts)
            × (d.lt cfg.aps_elevated_threshold wm.aps ≡ true))
  unfolding rules_of
  rules_of_lem cfg wm = (ground arith, ground arith, ground arith, ground arith, ground arith)
