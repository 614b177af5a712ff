-- ===== src/Engine/Evaluated.antt =====
-- What `evaluate` raises, against the rules as the documentation states them.
use rfguard.Common.Tests.{
  ℕ, ◌≡◌, ◌≢◌, ◌↔◌, refl, Bool, true, false, Option, none, some, List, [], ◌∷◌, arith, Bool-cases,
  inl, inr,
}
use rfguard.Common.Keys.{contains}
use rfguard.Common.Text.{Text, codes, text_eq}
use rfguard.Common.Int.{pos, eqb_ℤ, ◌≤ℤ◌}
use rfguard.Common.Clock.{Time}
use rfguard.Common.Float.{Float, one_f}
use rfguard.Model.{WindowMetrics, Alert}
use rfguard.Config.{Config, DetectionConfig, is_nil}
use rfguard.Engine.{Engine}
use rfguard.Engine.Monad.{cooldown_allow}
use rfguard.Engine.Rules.{
  excessive_attempt_rate, failure_spike, uid_spraying, machine_timing, attack_score, too_fast,
  spikes, sprays, ticks, attacks, rules_of, score_of, rules_of_lem,
}
use rfguard.Engine.Evaluate.{evaluate, raise_window}

pub data Rule : Type 0 where
  rate spike spraying timing attack : Rule

abbrev pub name_of : Rule → Text
name_of rate = excessive_attempt_rate
name_of spike = failure_spike
name_of spraying = uid_spraying
name_of timing = machine_timing
name_of attack = attack_score

abbrev pub possible_bruteforce : Text
possible_bruteforce = codes "possible_bruteforce"

none_listed : (name : Text) (rules : List Text) → is_nil rules ≡ true → contains name rules ≢ true
none_listed name [] h e = ground (arith, e)
none_listed name (r ∷ rules) h e = ground (arith, h)

module _ {F : Type 0} ⦃d : Float F⦄ (cfg : DetectionConfig F) (wm : WindowMetrics F) where
  -- The composite score of the documentation: the weighted attempt rate, failure ratio and UID
  -- diversity, and the weighted inverse of the timing variance.
  abbrev pub weighted_score : F
  weighted_score =
      let w = cfg.weights in
      d.add (d.add (d.add (d.mul w.aps wm.aps) (d.mul w.fr wm.fr)) (d.mul w.uds wm.uds))
        (d.mul w.tv (d.div one_f (d.add wm.tv cfg.epsilon)))

  abbrev pub IsElevated : Type 0
  IsElevated = d.lt cfg.aps_elevated_threshold wm.aps ≡ true

  -- When each rule applies.
  abbrev pub Condition : Rule → Type 0
  Condition rate = d.lt cfg.aps_threshold wm.aps ≡ true
  Condition spike =
      (d.lt cfg.failure_ratio_threshold wm.fr ≡ true) × (cfg.min_attempts ≤ℤ wm.attempts)
  Condition spraying = (d.lt cfg.uid_diversity_threshold wm.uds ≡ true) × IsElevated
  Condition timing = (d.lt wm.tv cfg.timing_variance_threshold ≡ true) × IsElevated
  Condition attack =
      (d.lt cfg.attack_score_threshold weighted_score ≡ true)
      × (cfg.min_attempts ≤ℤ wm.attempts)
      × IsElevated

  rules_of-Condition :
      (rule : Rule) → (contains (name_of rule) (rules_of cfg wm) ≡ true) ↔ Condition rule
  unfolding score_of
  rules_of-Condition rate = (rules_of_lem cfg wm).0
  rules_of-Condition spike = (rules_of_lem cfg wm).1
  rules_of-Condition spraying = (rules_of_lem cfg wm).2
  rules_of-Condition timing = (rules_of_lem cfg wm).3
  rules_of-Condition attack = (rules_of_lem cfg wm).4

  -- Without a rule, no condition holds.
  no_rule : is_nil (rules_of cfg wm) ≡ true → (rule : Rule) → ¬ Condition rule
  no_rule h rule c = none_listed (name_of rule) (rules_of cfg wm) h ((rules_of-Condition rule).1 c)

  some_rule : is_nil (rules_of cfg wm) ≡ false → (rule : Rule) × Condition rule
  unfolding rules_of score_of
  some_rule h = elim (Bool-cases (too_fast cfg wm)) [
    | inl on ↦ (rate, on)
    | inr not_rate ↦ elim (Bool-cases (spikes cfg wm)) [
      | inl on ↦ (spike, ground (arith, on))
      | inr not_spike ↦ elim (Bool-cases (sprays cfg wm)) [
        | inl on ↦ (spraying, ground (arith, on))
        | inr not_spraying ↦ elim (Bool-cases (ticks cfg wm)) [
          | inl on ↦ (timing, ground (arith, on))
          | inr not_timing ↦ elim (Bool-cases (attacks cfg wm)) [
            | inl on ↦ (attack, ground (arith, on))
            | inr not_attack ↦
                absurd
                  (ground (arith, h, not_rate, not_spike, not_spraying, not_timing, not_attack))
          ]
        ]
      ]
    ]
  ]

  -- An alert that lists exactly the rules whose condition holds, with the score and the metrics.
  pub record IsReport (reader_id : Text) (alert : Alert F) : Type 0 where
    pub listed : (rule : Rule) → (contains (name_of rule) alert.rules ≡ true) ↔ Condition rule
    pub score : alert.score ≡ weighted_score
    pub metrics : alert.metrics ≡ wm
    pub window_sec : alert.window_sec ≡ wm.window_sec
    pub reader : alert.reader_id ≡ reader_id
    pub kind : alert.alert_type ≡ possible_bruteforce

  -- What is raised, where `allowed` says whether the cooldown lets an alert through.
  pub data Evaluated (reader_id : Text) (allowed : Bool) : Option (Alert F) → Type 0 where
    empty : wm.attempts ≡ pos 0 → Evaluated reader_id allowed none
    quiet : ((rule : Rule) → ¬ Condition rule) → Evaluated reader_id allowed none
    held : allowed ≡ false → Evaluated reader_id allowed none
    raised :
        (alert : Alert F) (rule : Rule)
        → wm.attempts ≢ pos 0
        → Condition rule
        → allowed ≡ true
        → IsReport reader_id alert
        → Evaluated reader_id allowed (some alert)

module _ {F : Type 0} ⦃d : Float F⦄ (clock : ℕ → Time) where
  -- What `evaluate` raises: no alert for a window without attempts, or if the condition of no rule
  -- holds, or if the cooldown of the reader and the window holds it back; in all other cases the alert
  -- with exactly the rules whose condition holds, the score of the documentation, and the metrics.
  pub evaluate_lem :
      (cfg : Config F) (reader_id : Text) (wm : WindowMetrics F) (e : Engine F)
      → Evaluated cfg.detection wm reader_id
          (cooldown_allow clock reader_id wm.window_sec cfg.detection.alert_cooldown e).0
          (evaluate clock cfg reader_id wm e).0
  unfolding evaluate raise_window score_of
  evaluate_lem cfg reader_id wm e =
      let detection = cfg.detection in
      elim (Bool-cases (eqb_ℤ wm.attempts (pos 0))) [
        | inl zero_attempts ↦ rw zero_attempts (empty (ground (arith, zero_attempts)))
        | inr attempted ↦ elim (Bool-cases (is_nil (rules_of detection wm))) [
          | inl nil ↦ rw (attempted, nil) (quiet (no_rule detection wm nil))
          | inr listed ↦
              let allowed =
                cooldown_allow clock reader_id wm.window_sec detection.alert_cooldown e in
              let (rule, holds) = some_rule detection wm listed in
              elim (Bool-cases allowed.0) [
                | inl go ↦
                    rw (attempted, listed, go)
                      (raised _ rule (ground (arith, attempted)) holds refl (record {
                        listed = rules_of-Condition detection wm;
                        score = refl;
                        metrics = refl;
                        window_sec = refl;
                        reader = refl;
                        kind = refl;
                      }))
                | inr stop ↦ rw (attempted, listed, stop) (held refl)
              ]
        ]
      ]
