-- ===== src/Model.antt =====
-- internal/model/types.go: the data that the components exchange. The two values that the code
-- gives to the string type `Result` are constructors; `Context` is a map from names to texts.
use rfguard.Common.Tests.{Bool, true, false, List}
use rfguard.Common.Text.{Text, codes}
use rfguard.Common.Int.{ℤ}
use rfguard.Common.Maps.{Map}
use rfguard.Common.Clock.{Time}

pub data Result : Type 0 where
  success failure : Result

abbrev pub is_failure : Result → Bool
is_failure success = false
is_failure failure = true

-- The texts "success" and "failure" that the constructors stand for.
abbrev pub result_text : Result → Text
result_text success = codes "success"
result_text failure = codes "failure"

pub record NormalizedEvent : Type 0 where
  pub timestamp : Time
  pub reader_id : Text
  pub uid : Text
  pub result : Result
  pub error_code : Text
  pub source : Text
  pub raw : Text

pub record WindowMetrics (F : Type 0) : Type 0 where
  pub window_sec : ℤ
  pub attempts : ℤ
  pub failures : ℤ
  pub aps : F
  pub fr : F
  pub uds : F
  pub tv : F

pub record Alert (F : Type 0) : Type 0 where
  pub timestamp : Time
  pub reader_id : Text
  pub severity : Text
  pub alert_type : Text
  pub window_sec : ℤ
  pub metrics : WindowMetrics F
  pub score : F
  pub rules : List Text
  pub context : Map Text Text
