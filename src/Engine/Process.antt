-- ===== src/Engine/Process.antt =====
-- `ProcessEvent`, `getReader` and `isDuplicate`.
use rfguard.Common.Tests.{
  ℕ, Bool, false, List, [], ◌∷◌, ◌++◌, Option, none, some, map, if◌then◌else◌, suc,
}
use rfguard.Common.Text.{Text, text_eq, is_empty, codes, join}
use rfguard.Common.Int.{ℤ, pos, leb_ℤ, int_eq}
use rfguard.Common.Maps.{Map, lookup, insert, has}
use rfguard.Common.Clock.{Time, Duration, seconds}
use rfguard.Common.Float.{Float}
use rfguard.Model.{NormalizedEvent, WindowMetrics, Alert, result_text}
use rfguard.Config.{Config}
use rfguard.Window.{EventEntry, WindowState, new_window_state, observe}
use rfguard.Window
use rfguard.Dedupe.{seen}
use rfguard.Engine.{Platform, ReaderState}
use rfguard.Engine.Clamp.{clamp_timestamp}
use rfguard.Engine.Monad.{M, ◌>>=◌, ◌>>◌, return, now_utc, store_alert, store_metrics}
use rfguard.Engine.Evaluate.{evaluate, evaluate_access, evaluate_auth_streak}

-- The parts of an event that `hashEvent` joins.
abbrev pub hash_parts : Platform → NormalizedEvent → List Text
hash_parts p ev =
    ev.reader_id ∷ ev.uid ∷ result_text ev.result ∷ ev.error_code ∷ p.rfc3339_nano ev.timestamp ∷ []

unfoldable pub hash_event : Platform → NormalizedEvent → Text
hash_event p ev = p.hash (join (codes "|") (hash_parts p ev))

-- `sort.Ints`.
unfoldable pub insert_sorted : ℤ → List ℤ → List ℤ
insert_sorted k [] = k ∷ []
insert_sorted k (j ∷ ks) = if leb_ℤ k j then k ∷ j ∷ ks else j ∷ insert_sorted k ks

unfoldable pub sort_ints : List ℤ → List ℤ
unfolding insert_sorted
sort_ints [] = []
sort_ints (k ∷ ks) = insert_sorted k (sort_ints ks)

-- The keys of `sortedWindows`.
unfoldable pub sorted_keys : Map ℤ WindowState → List ℤ
unfolding sort_ints
sorted_keys windows = sort_ints (map (λ e. e.0) windows)

abbrev pub unknown : Text
unknown = codes "unknown"

abbrev pub named : Text → Text
named reader_id = if is_empty reader_id then unknown else reader_id

-- `sec` is `int(win.Seconds())`, the key of a window.
module _ (sec : Duration → ℤ) where
  -- The loop that gives a new reader its windows: of two with one key, the last stays.
  unfoldable pub open_windows : List Duration → Map ℤ WindowState → Map ℤ WindowState
  open_windows [] windows = windows
  open_windows (win ∷ wins) windows =
      open_windows wins (insert (sec win) (new_window_state win) windows)

  -- The loop for a known reader: a window that is there stays.
  unfoldable pub add_windows : List Duration → Map ℤ WindowState → Map ℤ WindowState
  add_windows [] windows = windows
  add_windows (win ∷ wins) windows =
      add_windows wins
        (if has (sec win) windows then windows else insert (sec win) (new_window_state win) windows)

abbrev pub entry_of : NormalizedEvent → EventEntry
entry_of ev = record { timestamp = ev.timestamp; uid = ev.uid; result = ev.result }

module _ {F : Type 0} ⦃d : Float F⦄ where
  unfoldable pub reader_of : Config F → Text → Option ReaderState → ReaderState
  unfolding open_windows add_windows
  reader_of cfg id none = record {
    id = id;
    windows = open_windows (λ win. d.to_int (seconds ⦃d = d⦄ win)) cfg.detection.windows [];
    uid_failure_streak = [];
  }
  reader_of cfg id (some r) = record r {
    windows = add_windows (λ win. d.to_int (seconds ⦃d = d⦄ win)) cfg.detection.windows r.windows;
  }

  unfoldable pub get_reader : Text → Config F → M F ReaderState
  unfolding reader_of
  get_reader reader_id cfg e =
      let r = reader_of cfg (named reader_id) (lookup (named reader_id) e.readers) in
      (r, record e { readers = insert (named reader_id) r e.readers })

  -- What the code writes through the pointer to a reader.
  unfoldable pub put_reader : ReaderState → M F (Unit {0})
  put_reader r e = (tt, record e { readers = insert r.id r e.readers })

  -- What an evaluation adds to the alerts of the event.
  unfoldable pub emit : Option (Alert F) → M F (List (Alert F))
  unfolding store_alert
  emit none = return []
  emit (some alert) = do store_alert alert; return (alert ∷ [])

  module _ (clock : ℕ → Time) where
    unfoldable pub is_duplicate : Platform → NormalizedEvent → Duration → M F Bool
    is_duplicate p ev window e =
        if leb_ℤ window (pos 0)
        then (false, e)
        else let r = seen e.de_dupe (hash_event p ev) (clock e.readings) window in
          (r.1, record e { de_dupe = r.0; readings = suc e.readings })

    -- One round of the loop over the windows.
    unfoldable pub observe_window :
        Config F → NormalizedEvent → WindowState → M F (WindowMetrics F × List (Alert F))
    unfolding emit
    observe_window cfg ev w = do
      let wm = Window.metrics ⦃d = d⦄ w
      alert ← evaluate clock cfg ev.reader_id wm
      out ← emit alert
      return (wm, out)

    -- The loop, over the keys of the windows: the windows after it, the metrics and the alerts.
    unfoldable pub observe_windows :
        Config F
        → NormalizedEvent
        → List ℤ
        → Map ℤ WindowState
        → M F (Map ℤ WindowState × List (WindowMetrics F) × List (Alert F))
    unfolding observe_window
    observe_windows cfg ev [] windows = return (windows, [], [])
    observe_windows cfg ev (k ∷ ks) windows = elim (lookup k windows) [
      | none ↦ observe_windows cfg ev ks windows
      | some w ↦ do
        let w' = observe w (entry_of ev)
        round ← observe_window cfg ev w'
        rest ← observe_windows cfg ev ks (insert k w' windows)
        return (rest.0, round.0 ∷ rest.1, round.1 ++ rest.2)
    ]

    -- `ProcessEvent` for an event that is no duplicate.
    unfoldable pub process_fresh : Config F → NormalizedEvent → M F (List (Alert F))
    unfolding emit get_reader put_reader observe_windows
    process_fresh cfg ev = do
      access ← evaluate_access clock cfg ev
      access_out ← emit access
      reader ← get_reader ev.reader_id cfg
      auth ← evaluate_auth_streak clock cfg reader ev
      auth_out ← emit auth.0
      observed ← observe_windows cfg ev (sorted_keys auth.1.windows) auth.1.windows
      put_reader (record auth.1 { windows = observed.0 })
      store_metrics clock ev.reader_id observed.1
      return (access_out ++ (auth_out ++ observed.2))

    unfoldable pub process_event : Platform → NormalizedEvent → M F (List (Alert F))
    unfolding now_utc is_duplicate process_fresh
    process_event p ev e =
        (do
          now ← now_utc clock
          let cfg = e.cfg
          let ev' = record ev {
            timestamp =
                clamp_timestamp ev.timestamp now cfg.detection.max_clock_skew
                  cfg.detection.max_future_skew;
          }
          duplicate ← is_duplicate p ev' cfg.detection.dedupe_window
          if duplicate then return [] else process_fresh cfg ev')
          e
