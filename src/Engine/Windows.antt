-- ===== src/Engine/Windows.antt =====
-- The loop over the windows of a reader shows the event to each of them once.
use rfguard.Common.Tests.{
  ℕ, ◌≡◌, refl, ◌∙◌, false, ◌||◌, List, [], ◌∷◌, Option, none, some, map, if◌then◌else◌, arith,
  Bool-cases, Option-cases, inl, inr,
}
use rfguard.Common.Eq.{◌==◌}
use rfguard.Common.Keys.{contains, Unique, has-lookup}
use rfguard.Common.Int.{ℤ, int_eq, leb_ℤ, eqb_ℤ_iff}
use rfguard.Common.Maps.{Map, lookup, insert, has, Distinct, lookup-insert}
use rfguard.Common.Clock.{Time}
use rfguard.Common.Float.{Float}
use rfguard.Model.{NormalizedEvent}
use rfguard.Config.{Config}
use rfguard.Window.{WindowState, observe}
use rfguard.Engine.{Engine}
use rfguard.Engine.Process.{
  insert_sorted, sort_ints, sorted_keys, entry_of, observe_windows, observe_window,
}

-- What the event makes of a window, if there is one.
abbrev pub observed : NormalizedEvent → Option WindowState → Option WindowState
observed ev none = none
observed ev (some w) = some (observe w (entry_of ev))

contains-insert_sorted :
    (j k : ℤ) (ks : List ℤ) → contains j (insert_sorted k ks) ≡ (k == j || contains j ks)
unfolding insert_sorted
contains-insert_sorted j k [] = refl
contains-insert_sorted j k (i ∷ ks) = ground (arith, contains-insert_sorted j k ks)

Unique-insert_sorted :
    (k : ℤ) (ks : List ℤ) → contains k ks ≡ false → Unique ks → Unique (insert_sorted k ks)
unfolding insert_sorted
Unique-insert_sorted k [] h u = ground arith
Unique-insert_sorted k (i ∷ ks) h u = elim (Bool-cases (leb_ℤ k i)) [
  | inl first ↦ rw first (h, u)
  | inr later ↦ rw later (
    ground (arith, contains-insert_sorted i k ks, h, u.0),
    Unique-insert_sorted k ks (ground (arith, h)) u.1,
  )
]

contains-sort_ints : (j : ℤ) (ks : List ℤ) → contains j (sort_ints ks) ≡ contains j ks
unfolding sort_ints
contains-sort_ints j [] = refl
contains-sort_ints j (k ∷ ks) =
    ground (arith, contains-insert_sorted j k (sort_ints ks), contains-sort_ints j ks)

contains-sorted_keys : (j : ℤ) (ws : Map ℤ WindowState) → contains j (sorted_keys ws) ≡ has j ws
unfolding sorted_keys has sort_ints
contains-sorted_keys j [] = refl
contains-sorted_keys j ((k, w) ∷ ws) =
    ground
      (arith, contains-insert_sorted j k (sort_ints (map (λ e. e.0) ws)), contains-sorted_keys j ws)

Unique-sorted_keys : (ws : Map ℤ WindowState) → Distinct ws → Unique (sorted_keys ws)
unfolding sorted_keys has sort_ints
Unique-sorted_keys [] d = tt
Unique-sorted_keys ((k, w) ∷ ws) d =
    Unique-insert_sorted k (sorted_keys ws) (contains-sorted_keys k ws ∙ d.0)
      (Unique-sorted_keys ws d.1)

module _ (ev : NormalizedEvent) (j k : ℤ) (ks : List ℤ) (ws : Map ℤ WindowState) where
  abbrev seen_by : List ℤ → Map ℤ WindowState → Option WindowState
  seen_by keys windows =
      if contains j keys then observed ev (lookup j windows) else lookup j windows

  seen_by_absent : lookup k ws ≡ none → seen_by ks ws ≡ seen_by (k ∷ ks) ws
  seen_by_absent p = ground (arith, eqb_ℤ_iff k j, p)

  seen_by_present :
      (w : WindowState)
      → lookup k ws ≡ some w
      → contains k ks ≡ false
      → seen_by ks (insert k (observe w (entry_of ev)) ws) ≡ seen_by (k ∷ ks) ws
  seen_by_present w p h =
      ground (arith, eqb_ℤ_iff k j, p, h, lookup-insert k j (observe w (entry_of ev)) ws)

module _ {F : Type 0} ⦃d : Float F⦄ (clock : ℕ → Time) (cfg : Config F) (ev : NormalizedEvent) where
  lookup-observe_windows :
      (j : ℤ) (ks : List ℤ) (ws : Map ℤ WindowState) (e : Engine F)
      → Unique ks
      → lookup j (observe_windows clock cfg ev ks ws e).0.0
        ≡ (if contains j ks then observed ev (lookup j ws) else lookup j ws)
  unfolding observe_windows
  lookup-observe_windows j [] ws e u = refl
  lookup-observe_windows j (k ∷ ks) ws e u = elim (Option-cases (lookup k ws)) [
    | inl p ↦
        rw (observe_windows, p)
          (lookup-observe_windows j ks ws e u.1 ∙ seen_by_absent ev j k ks ws p)
    | inr (w, p) ↦
        let w' = observe w (entry_of ev) in
        rw (observe_windows, p)
          (lookup-observe_windows j ks (insert k w' ws) (observe_window clock cfg ev w' e).1 u.1
            ∙ seen_by_present ev j k ks ws w p u.0)
  ]

  -- The loop over the sorted keys shows the event to every window of a reader exactly once, and opens
  -- or drops none. The keys of the windows are distinct, as in every Go map.
  pub observe_windows_lem :
      (j : ℤ) (ws : Map ℤ WindowState) (e : Engine F)
      → Distinct ws
      → lookup j (observe_windows clock cfg ev (sorted_keys ws) ws e).0.0
        ≡ observed ev (lookup j ws)
  observe_windows_lem j ws e h =
      lookup-observe_windows j (sorted_keys ws) ws e (Unique-sorted_keys ws h)
      ∙ ground (arith, contains-sorted_keys j ws, has-lookup j ws)
