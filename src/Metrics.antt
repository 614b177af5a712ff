-- ===== src/Metrics.antt =====
-- internal/metrics/store.go: the latest metrics of each reader and window. A call is atomic under
-- the mutex; `now` is the clock as `Update` reads it.
pub mod Bounds
pub mod Update
pub mod Latest
use rfguard.Common.Tests.{
  ℕ, ◌≡◌, Bool, true, false, not, ◌||◌, List, [], ◌∷◌, ◌++◌, Option, none, some, map, if◌then◌else◌,
}
use rfguard.Common.Lists.{length}
use rfguard.Common.Eq.{◌==◌}
use rfguard.Common.Text.{Text, text_eq, is_empty}
use rfguard.Common.Int.{ℤ, pos, leb_ℤ, ltb_ℤ, int_eq}
use rfguard.Common.Maps.{Map, lookup, insert, delete}
use rfguard.Common.Clock.{Time, before}
use rfguard.Model.{WindowMetrics}

pub record Store (F : Type 0) : Type 0 where
  pub by_reader : Map Text (Map ℤ (WindowMetrics F))
  pub updated_at : Map Text Time
  pub limit : ℤ

abbrev pub default_limit : ℤ
default_limit = pos 5000

abbrev pub or_new : {F : Type 0} → Option (Map ℤ (WindowMetrics F)) → Map ℤ (WindowMetrics F)
or_new none = []
or_new (some m) = m

abbrev pub values : {K V : Type 0} → Map K V → List V
values = map (λ e. e.1)

-- The loop in `evictOldest`, from the oldest reader and its time so far; "" stands for none.
unfoldable pub oldest_loop : Text × Time → Map Text Time → Text × Time
oldest_loop best [] = best
oldest_loop best ((reader, ts) ∷ rest) =
    oldest_loop (if is_empty best.0 || before ts best.1 then (reader, ts) else best) rest

-- `time.Time{}` for a reader without a time.
abbrev pub or_zero_time : Option Time → Time
or_zero_time none = pos 0
or_zero_time (some t) = t

module _ {F : Type 0} where
  unfoldable pub new_store : ℤ → Store F
  new_store limit = record {
    by_reader = [];
    updated_at = [];
    limit = if leb_ℤ limit (pos 0) then default_limit else limit;
  }

  unfoldable pub write_all :
      List (WindowMetrics F) → Map ℤ (WindowMetrics F) → Map ℤ (WindowMetrics F)
  write_all [] m = m
  write_all (wm ∷ rest) m = write_all rest (insert wm.window_sec wm m)

  unfoldable pub evict_oldest : Store F → Store F
  evict_oldest s =
      let oldest = (oldest_loop ([], pos 0) s.updated_at).0 in
      if is_empty oldest then s else record s {
        by_reader = delete oldest s.by_reader;
        updated_at = delete oldest s.updated_at;
      }

  -- `Update` up to its test of the limit.
  unfoldable pub write : Store F → Text → List (WindowMetrics F) → Time → Store F
  write s reader_id metrics now = record s {
    by_reader =
        insert reader_id (write_all metrics (or_new (lookup reader_id s.by_reader))) s.by_reader;
    updated_at = insert reader_id now s.updated_at;
  }

  unfoldable pub update : Store F → Text → List (WindowMetrics F) → Time → Store F
  update s reader_id metrics now =
      if is_empty reader_id
      then s
      else let written = write s reader_id metrics now in
        if ltb_ℤ s.limit (pos (length written.by_reader)) then evict_oldest written else written

  unfoldable pub get : Store F → Text → Option (List (WindowMetrics F) × Time)
  get s reader_id = elim (lookup reader_id s.by_reader) [
    | none ↦ none
    | some m ↦ some (values m, or_zero_time (lookup reader_id s.updated_at))
  ]

  unfoldable pub get_all : Store F → Map Text (List (WindowMetrics F))
  get_all s = map (λ e. (e.0, values e.1)) s.by_reader

  unfoldable pub clear : Store F → Store F
  clear s = record s { by_reader = []; updated_at = [] }
