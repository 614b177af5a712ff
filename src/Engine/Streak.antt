-- ===== src/Engine/Streak.antt =====
-- The streak of a UID counts its failed authentications in a row, and an alert needs two of them.
use rfguard.Common.Tests.{
  ℕ, suc, ◌+◌, ◌≤◌, ◌<◌, ◌≡◌, refl, ◌≢◌, ap, sym, ◌∙◌, Bool, not, ◌&&◌, List, [], ◌∷◌,
  if◌then◌else◌, arith, ltb,
}
use mathlib.Core.Path.{subst}
use rfguard.Common.Eq.{◌==◌}
use rfguard.Common.Keys.{is_some}
use rfguard.Common.Lists.{length}
use rfguard.Common.Text.{Text, text_eq, is_empty, eq_text_iff}
use rfguard.Common.Int.{ℤ, pos, inc_int-pos, max_int}
use rfguard.Common.Maps.{lookup, lookup-insert}
use rfguard.Common.Clock.{Time}
use rfguard.Common.Float.{Float}
use rfguard.Model.{NormalizedEvent, is_failure}
use rfguard.Config.{Config}
use rfguard.Window.{or_zero}
use rfguard.Access.{normalize_uid}
use rfguard.Access.Uid.{normalize_uid-nil}
use rfguard.Engine.{Engine, ReaderState}
use rfguard.Engine.Monad.{M, ◌>>=◌, return, cooldown_allow_key}
use rfguard.Engine.Evaluate.{
  evaluate_auth_streak, streak_after, set_streak, auth_key, stamp, raise_auth,
}

-- A failed authentication: a failure that names an error.
abbrev pub fails : NormalizedEvent → Bool
fails ev = is_failure ev.result && not (is_empty ev.error_code)

-- How many failed authentications of the UID, in a row, end a history that `n` of them precede.
unfoldable pub trailing : Text → ℕ → List NormalizedEvent → ℕ
trailing uid n [] = n
trailing uid n (ev ∷ evs) =
    trailing uid (if normalize_uid ev.uid == uid then (if fails ev then suc n else 0) else n) evs

abbrev pub new_reader : Text → ReaderState
new_reader id = record { id = id; windows = []; uid_failure_streak = [] }

trailing-le :
    (uid : Text) (n : ℕ) (evs : List NormalizedEvent) → trailing uid n evs ≤ n + length evs
unfolding trailing
trailing-le uid n [] = omega arith
trailing-le uid n (ev ∷ evs) = ground (
  arith,
  trailing-le uid (if normalize_uid ev.uid == uid then (if fails ev then suc n else 0) else n) evs,
)

-- The reader after an event.
abbrev next : ReaderState → NormalizedEvent → ReaderState
next r ev =
    if is_empty ev.uid
    then r
    else if is_empty (normalize_uid ev.uid)
    then r
    else set_streak (normalize_uid ev.uid) (if fails ev then streak_after ev r else pos 0) r

abbrev streak_of : Text → ReaderState → ℤ
streak_of uid r = or_zero (lookup uid r.uid_failure_streak)

streak_of-next :
    (uid : Text) (n : ℕ) (r : ReaderState) (ev : NormalizedEvent)
    → uid ≢ []
    → n < max_int
    → streak_of uid r ≡ pos n
    → streak_of uid (next r ev)
      ≡ pos (if normalize_uid ev.uid == uid then (if fails ev then suc n else 0) else n)
streak_of-next uid n r ev nonempty small h =
    let u = normalize_uid ev.uid in
    ground (
      arith,
      lookup-insert u uid (if fails ev then streak_after ev r else pos 0) r.uid_failure_streak,
      eq_text_iff u uid,
      inc_int-pos n small,
      normalize_uid-nil,
    )

module _ {F : Type 0} ⦃d : Float F⦄ (clock : ℕ → Time) (cfg : Config F) where
  evaluate_auth_streak-next :
      (r : ReaderState) (ev : NormalizedEvent) (e : Engine F)
      → (evaluate_auth_streak clock cfg r ev e).0.1 ≡ next r ev
  unfolding evaluate_auth_streak
  evaluate_auth_streak-next r ev e = ground arith

  -- A reader that follows a history of events.
  unfoldable pub follow : ReaderState → List NormalizedEvent → M F ReaderState
  follow r [] = return r
  follow r (ev ∷ evs) = do step ← evaluate_auth_streak clock cfg r ev; follow step.1 evs

  follow-streak :
      (uid : Text) (n : ℕ) (r : ReaderState) (evs : List NormalizedEvent) (e : Engine F)
      → uid ≢ []
      → n + length evs ≤ max_int
      → streak_of uid r ≡ pos n
      → streak_of uid (follow r evs e).0 ≡ pos (trailing uid n evs)
  unfolding follow trailing
  follow-streak uid n r [] e nonempty small h = h
  follow-streak uid n r (ev ∷ evs) e nonempty small h =
      let n' = if normalize_uid ev.uid == uid then (if fails ev then suc n else 0) else n in
      let after = (evaluate_auth_streak clock cfg r ev e).1 in
      subst (λ q. streak_of uid (follow q evs after).0 ≡ pos (trailing uid n' evs))
        (sym (evaluate_auth_streak-next r ev e))
        (follow-streak uid n' (next r ev) evs after nonempty (ground arith)
          (streak_of-next uid n r ev nonempty (omega arith) h))

  alert_lem :
      (r : ReaderState) (ev : NormalizedEvent) (e : Engine F) (n : ℕ)
      → normalize_uid ev.uid ≢ []
      → streak_of (normalize_uid ev.uid) r ≡ pos n
      → n < max_int
      → is_some (evaluate_auth_streak clock cfg r ev e).0.0 ≡ (
          fails ev
          && ltb 0 n
          && (cooldown_allow_key clock
              (auth_key r.id (normalize_uid ev.uid))
              cfg.detection.alert_cooldown
              e).0)
  unfolding evaluate_auth_streak raise_auth stamp
  alert_lem r ev e n nonempty h small = ground (arith, inc_int-pos n small, normalize_uid-nil)

  follow-id :
      (r : ReaderState) (evs : List NormalizedEvent) (e : Engine F) → (follow r evs e).0.id ≡ r.id
  unfolding follow
  follow-id r [] e = refl
  follow-id r (ev ∷ evs) e =
      let step = evaluate_auth_streak clock cfg r ev e in
      let same : (next r ev).id ≡ r.id = ground arith in
      follow-id step.0.1 evs step.1 ∙ ap (λ q. q.id) (evaluate_auth_streak-next r ev e) ∙ same

  -- After any history of a new reader, an event raises an alert exactly if it is a failed
  -- authentication, the last event of its UID in the history was one too, and the cooldown lets the
  -- alert through. The event has a UID, and the history is no longer than the counter can hold.
  pub evaluate_auth_streak_lem :
      (id : Text) (history : List NormalizedEvent) (ev : NormalizedEvent) (e : Engine F)
      → normalize_uid ev.uid ≢ []
      → length history < max_int
      → let f = follow (new_reader id) history e in
        is_some (evaluate_auth_streak clock cfg f.0 ev f.1).0.0 ≡ (
          fails ev
          && ltb 0 (trailing (normalize_uid ev.uid) 0 history)
          && (cooldown_allow_key clock
              (auth_key id (normalize_uid ev.uid))
              cfg.detection.alert_cooldown
              f.1).0)
  evaluate_auth_streak_lem id history ev e nonempty small =
      let u = normalize_uid ev.uid in
      let f = follow (new_reader id) history e in
      let streak =
        follow-streak u 0 (new_reader id) history e nonempty (omega arith)
          (unfold lookup in refl) in
      let bound = trailing-le u 0 history in
      alert_lem f.0 ev f.1 (trailing u 0 history) nonempty streak (omega (arith, bound))
      ∙ ap
          (λ name.
            fails ev
            && ltb 0 (trailing u 0 history)
            && (cooldown_allow_key clock (auth_key name u) cfg.detection.alert_cooldown f.1).0)
          (follow-id (new_reader id) history e)
