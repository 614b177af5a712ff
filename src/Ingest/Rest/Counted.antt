-- ===== src/Ingest/Rest/Counted.antt =====
-- What the handler counts, and what it sends.
use rfguard.Common.Tests.{
  ℕ, suc, ◌+◌, ◌≡◌, refl, sym, ◌∙◌, false, List, [], ◌∷◌, Option, none, some, arith, Bool-cases,
  inl, inr,
}
use rfguard.Common.Eq.{◌==◌}
use rfguard.Common.Lists.{length}
use rfguard.Common.Maps.{Map}
use rfguard.Common.Text.{Text, text_eq, codes}
use rfguard.Config.{ParserConfig}
use rfguard.Model.{NormalizedEvent}
use rfguard.Normalize.{Times}
use rfguard.Ingest.Channel.{Channel}
use rfguard.Ingest.Fields.{Json}
use rfguard.Ingest.Lines.{is_sent, send_event}
use rfguard.Ingest.Channel.Filled.{filled, filled_nil}
use rfguard.Ingest.Lines.Delivered.{filled-send_event, prepend}
use rfguard.Ingest.Rest.{
  Request, Response, status, counted, Instants, Count, count_one, background, object_event,
  process_map, process_list, objects_of, respond, handle_body, handle_events, bytes_trim,
}

module _ {Value Location : Type 0} (json : Json Value) (times : Times Location)
    (cfg : ParserConfig) where
  -- The events of the objects that have one.
  unfoldable pub events_of_list : List (Map Text Value) → (ℕ → Instants) → ℕ → List NormalizedEvent
  events_of_list [] at n = []
  events_of_list (obj ∷ list) at n =
      prepend (object_event json times cfg obj (at n)) (events_of_list list at (suc n))

  pub record IsCounted (objects : List (Map Text Value)) (events : List NormalizedEvent)
      (out : Channel NormalizedEvent) (c : Count) : Type 0 where
    pub accepted : c.accepted ≡ length events
    pub all_counted : c.accepted + c.failed ≡ length objects
    pub sent : c.out ≡ filled events out

  count_one-IsCounted :
      (obj : Map Text Value) (list : List (Map Text Value)) (found : Option NormalizedEvent)
      (events : List NormalizedEvent) (out : Channel NormalizedEvent) (c : Count)
      → IsCounted list events (send_event background found out) c
      → IsCounted (obj ∷ list) (prepend found events) out (count_one (is_sent found) c)
  count_one-IsCounted obj list none events out c h = record {
    accepted = h.accepted;
    all_counted = omega (arith, h.all_counted);
    sent = h.sent;
  }
  count_one-IsCounted obj list (some ev) events out c h = record {
    accepted = omega (arith, h.accepted);
    all_counted = omega (arith, h.all_counted);
    sent = h.sent ∙ filled-send_event background (some ev) events out refl;
  }

  process_list-IsCounted :
      (list : List (Map Text Value)) (at : ℕ → Instants) (n : ℕ) (out : Channel NormalizedEvent)
      → IsCounted list (events_of_list list at n) out (process_list json times cfg list at n out)
  unfolding process_list events_of_list process_map
  process_list-IsCounted [] at n out = record {
    accepted = refl;
    all_counted = refl;
    sent = sym (filled_nil out);
  }
  process_list-IsCounted (obj ∷ list) at n out =
      let found = object_event json times cfg obj (at n) in
      let next = send_event background found out in
      count_one-IsCounted obj list found (events_of_list list at (suc n)) out _
        (process_list-IsCounted list at (suc n) next)

  -- How a request ends.
  pub data RequestEnd (r : Request) (at : ℕ → Instants) (out : Channel NormalizedEvent)
      : Response × Channel NormalizedEvent → Type 0 where
    not_post : (r.method == codes "POST") ≡ false → RequestEnd r at out (status 405, out)
    unreadable : r.body ≡ none → RequestEnd r at out (status 400, out)
    undecodable :
        (body : Text)
        → r.body ≡ some body
        → objects_of json times cfg (bytes_trim body) ≡ none
        → RequestEnd r at out (status 400, out)
    processed :
        (body : Text) (objects : List (Map Text Value)) (c : Count)
        → r.body ≡ some body
        → objects_of json times cfg (bytes_trim body) ≡ some objects
        → IsCounted objects (events_of_list objects at 0) out c
        → RequestEnd r at out (counted c.accepted c.failed, c.out)

  respond-RequestEnd :
      (r : Request) (at : ℕ → Instants) (out : Channel NormalizedEvent) (body : Text)
      (objects : Option (List (Map Text Value)))
      → r.body ≡ some body
      → objects_of json times cfg (bytes_trim body) ≡ objects
      → RequestEnd r at out (respond json times cfg objects at out)
  respond-RequestEnd r at out body none b e = undecodable body b e
  respond-RequestEnd r at out body (some list) b e =
      processed body list (process_list json times cfg list at 0 out) b e
        (process_list-IsCounted list at 0 out)

  handle_body-RequestEnd :
      (r : Request) (at : ℕ → Instants) (out : Channel NormalizedEvent) (body : Option Text)
      → r.body ≡ body
      → RequestEnd r at out (handle_body json times cfg body at out)
  handle_body-RequestEnd r at out none b = unreadable b
  handle_body-RequestEnd r at out (some body) b =
      respond-RequestEnd r at out body (objects_of json times cfg (bytes_trim body)) b refl

  -- A request is refused and sends nothing, or each of its objects counts once: as accepted if it has
  -- an event, as failed otherwise; and the channel gets these events in their order, as many as it has
  -- room for. What the channel drops counts as accepted.
  pub handle_events-RequestEnd :
      (r : Request) (at : ℕ → Instants) (out : Channel NormalizedEvent)
      → RequestEnd r at out (handle_events json times cfg r at out)
  unfolding handle_events
  handle_events-RequestEnd r at out = elim (Bool-cases (r.method == codes "POST")) [
    | inl post ↦ rw post (handle_body-RequestEnd r at out r.body refl)
    | inr other ↦ rw other (not_post other)
  ]
