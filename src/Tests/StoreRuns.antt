-- ===== src/Tests/StoreRuns.antt =====
-- The stores, the configuration and the access control on small inputs.
use rfguard.Common.Tests.{◌≡◌, ◌↔◌, refl, true, false, List, [], ◌∷◌, none, some, arith}
use rfguard.Common.Text.{codes}
use rfguard.Common.Int.{ℤ, pos, ◌-ℤ◌}
use rfguard.Common.Fixed.{fixed_float, Fixed-IsOrdered}
use rfguard.Common.Maps.{lookup, insert, has}
use rfguard.Common.Clock.{sub_time}
use rfguard.Config.{AccessControlConfig, default_config, validate, apply_defaults}
use rfguard.Config.Checks.{IsUsable, IsComplete, validate-none_iff, apply_defaults_lem}
use rfguard.Access.{build_access_control, is_blacklisted, is_whitelisted}
use rfguard.Access.Policy.{policy, policy_lem}
use rfguard.Alerts
use rfguard.Alerts.Recent.{last_of, list-add_all}
use rfguard.Metrics
use rfguard.Metrics.Bounds.{IsValid}
use rfguard.Metrics.Update.{new_store-IsValid, update-IsValid}
use rfguard.Common.Text.{text_eq}
use rfguard.Metrics.{values, or_new}
use rfguard.Metrics.Latest.{IsOverwritten, get-update}
use rfguard.Model.{WindowMetrics}
use rfguard.Common.Maps.{Map}
use rfguard.Engine.Clamp.{clamp_timestamp, within_skew, clamp_timestamp_lem}
use rfguard.Model.{Alert}
use rfguard.Tests.{millis, alert, window_metrics}

abbrev three : List (Alert ℤ)
three = alert (codes "r1") ∷ alert (codes "r2") ∷ alert (codes "r3") ∷ []

list-add_all_example :
    Alerts.list (Alerts.add_all (Alerts.new_store (pos 2)) three) (pos 1) ≡ last_of 1 three
unfolding Alerts.effective_limit
list-add_all_example = list-add_all (pos 2) (pos 1) 2 three refl (omega arith)

abbrev one_reader : Metrics.Store ℤ
one_reader =
    Metrics.update (Metrics.new_store (pos 1)) (codes "r1") (window_metrics ∷ []) (millis 0)

update-IsValid_example : IsValid one_reader
update-IsValid_example =
    update-IsValid (Metrics.new_store (pos 1)) (codes "r1") (window_metrics ∷ []) (millis 0)
      (new_store-IsValid (pos 1))

abbrev two_windows : List (WindowMetrics ℤ)
two_windows =
    window_metrics
    ∷ record window_metrics { window_sec = pos 60 }
    ∷ record window_metrics { attempts = pos 7 }
    ∷ []

get-update_example :
    (m : Map ℤ (WindowMetrics ℤ)) × (Metrics.get
        (Metrics.update one_reader (codes "r2") two_windows (millis 5))
        (codes "r2")
      ≡ some (values m, millis 5))
    × IsOverwritten two_windows (or_new (lookup (codes "r2") one_reader.by_reader)) m
unfolding lookup Metrics.update Metrics.new_store Metrics.write insert
get-update_example =
    get-update one_reader (codes "r2") two_windows (millis 5) (λ e. ground (arith, e))
      update-IsValid_example ((omega arith), tt) tt

validate-none_iff_example :
    (validate ⦃d = fixed_float⦄ default_config ≡ none) ↔ IsUsable ⦃d = fixed_float⦄ default_config
validate-none_iff_example = validate-none_iff default_config

apply_defaults_lem_example :
    IsComplete ⦃d = fixed_float⦄ (apply_defaults default_config)
    × (apply_defaults ⦃d = fixed_float⦄ (apply_defaults default_config)
        ≡ apply_defaults default_config)
apply_defaults_lem_example = apply_defaults_lem Fixed-IsOrdered default_config

clamp_timestamp_lem_example :
    (clamp_timestamp (millis 0) (millis 9000) (pos 1000) (pos 0) ≡ millis 9000)
    × (within_skew (millis 9000) (millis 9000) (pos 1000) (pos 0) ≡ true)
    × (clamp_timestamp (millis 9000) (millis 9000) (pos 1000) (pos 0) ≡ millis 9000)
unfolding clamp_timestamp sub_time ◌-ℤ◌
clamp_timestamp_lem_example = clamp_timestamp_lem (millis 0) (millis 9000) (pos 1000) (pos 0)

abbrev access_config : AccessControlConfig
access_config = record {
  enabled = true;
  whitelist_only = false;
  whitelist = codes "aa-11" ∷ [];
  blacklist = codes "dead" ∷ [];
  reader_whitelists = [];
  reader_blacklists = (codes "r1", codes "be:ef" ∷ []) ∷ [];
}

policy_lem_example :
    (is_blacklisted (some (build_access_control access_config)) (codes "r1") (codes "BEEF")
      ≡ policy access_config.blacklist access_config.reader_blacklists (codes "r1") (codes "BEEF"))
    × (is_whitelisted (some (build_access_control access_config)) (codes "r1") (codes "BEEF")
        ≡ policy access_config.whitelist access_config.reader_whitelists
            (codes "r1")
            (codes "BEEF"))
unfolding has
policy_lem_example =
    policy_lem access_config (codes "r1") (codes "BEEF") refl (λ e. ground (arith, e)) (refl, tt) tt
