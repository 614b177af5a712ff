-- ===== src/Ingest/Rest.antt =====
-- internal/ingest/rest.go: the handler of `/events`. A request has a method and a body, which may be
-- too long to be read.
pub mod Counted
use rfguard.Common.Tests.{
  ℕ, zero, suc, Bool, true, false, ◌||◌, not, List, [], ◌∷◌, Option, none, some, eqb, if◌then◌else◌,
}
use rfguard.Common.Eq.{◌==◌}
use rfguard.Common.Lists.{drop_while}
use rfguard.Common.Maps.{Map}
use rfguard.Common.Text.{Text, text_eq, codes, trim_end}
use rfguard.Common.Clock.{Time}
use rfguard.Config.{ParserConfig}
use rfguard.Model.{NormalizedEvent}
use rfguard.Normalize.{EventFields, Times, normalize}
use rfguard.Ingest.Channel.{Channel, Choice}
use rfguard.Ingest.Fields.{Json, parse_json_map}
use rfguard.Ingest.Lines.{with_source, send_event, is_sent}

pub record Request : Type 0 where
  pub method : Text
  pub body : Option Text

-- The answers: an HTTP status alone, or the counts of events.
pub data Response : Type 0 where
  status : ℕ → Response
  counted : (accepted failed : ℕ) → Response

abbrev pub blank : ℕ → Bool
blank c = eqb c 0x20 || eqb c 0x0a || eqb c 0x0d || eqb c 0x09

unfoldable pub bytes_trim : Text → Text
unfolding trim_end
bytes_trim b = trim_end blank (drop_while blank b)

abbrev pub rest_source : Text
rest_source = codes "rest"

-- `context.Background()` is never done.
abbrev pub background : Choice
background = record { done = false; prefers_send = true }

-- The readings of the clock for one object.
pub record Instants : Type 0 where
  pub now : Time
  pub later : Time

-- The accepted objects, those that failed, and the channel.
pub record Count : Type 0 where
  pub accepted : ℕ
  pub failed : ℕ
  pub out : Channel NormalizedEvent

abbrev pub count_one : Bool → Count → Count
count_one true later = record later { accepted = suc later.accepted }
count_one false later = record later { failed = suc later.failed }

module _ {Value Location : Type 0} (json : Json Value) (times : Times Location)
    (cfg : ParserConfig) where
  -- The event of an object.
  unfoldable pub object_event : Map Text Value → Instants → Option NormalizedEvent
  unfolding parse_json_map normalize
  object_event obj at =
      with_source rest_source (
        normalize times (record (parse_json_map json obj) { raw = rest_source }) cfg at.now
          at.later)

  -- `processMap`: whether there was no error, and the channel.
  unfoldable pub process_map :
      Map Text Value → Instants → Channel NormalizedEvent → Bool × Channel NormalizedEvent
  unfolding object_event
  process_map obj at out =
      let found = object_event obj at in (is_sent found, send_event background found out)

  unfoldable pub process_list :
      List (Map Text Value) → (ℕ → Instants) → ℕ → Channel NormalizedEvent → Count
  unfolding process_map
  process_list [] at n out = record { accepted = 0; failed = 0; out = out }
  process_list (obj ∷ list) at n out =
      let done = process_map obj (at n) out in
      count_one done.0 (process_list list at (suc n) done.1)

  abbrev pub respond :
      Option (List (Map Text Value))
      → (ℕ → Instants)
      → Channel NormalizedEvent
      → Response × Channel NormalizedEvent
  respond none at out = (status 400, out)
  respond (some list) at out =
      let c = process_list list at 0 out in (counted c.accepted c.failed, c.out)

  abbrev pub singleton_of : Option (Map Text Value) → Option (List (Map Text Value))
  singleton_of none = none
  singleton_of (some obj) = some (obj ∷ [])

  -- The objects of a body from which the space around it is trimmed.
  abbrev pub objects_of : Text → Option (List (Map Text Value))
  objects_of [] = none
  objects_of (c ∷ trim) =
      if eqb c b'['
      then json.unmarshal_list (c ∷ trim)
      else singleton_of (json.unmarshal (c ∷ trim))

  abbrev pub handle_body :
      Option Text → (ℕ → Instants) → Channel NormalizedEvent → Response × Channel NormalizedEvent
  handle_body none at out = (status 400, out)
  handle_body (some body) at out = respond (objects_of (bytes_trim body)) at out

  -- `handleEvents`.
  unfoldable pub handle_events :
      Request → (ℕ → Instants) → Channel NormalizedEvent → Response × Channel NormalizedEvent
  unfolding bytes_trim process_list
  handle_events r at out =
      if not (r.method == codes "POST") then (status 405, out) else handle_body r.body at out
