-- ===== src/Api/Handlers/Effects.antt =====
-- Which requests change the state of the program.
use rfguard.Common.Tests.{
  ◌≡◌, refl, ap, Bool, true, false, not, Option, none, some, if◌then◌else◌, ◌⊎◌, inl, inr,
}
use rfguard.Common.Result.{Outcome, ok, err}
use rfguard.Common.Text.{text_eq}
use rfguard.Common.Clock.{Time}
use rfguard.Common.Float.{Float}
use rfguard.Config.{Config, AccessControlConfig}
use rfguard.Config.Load.{Codec, SaveError}
use rfguard.Config.Manager.{Disk, Manager, Write}
use rfguard.Config.Manager.Updated.{IsUpdated, update-IsUpdated}
use rfguard.Api.Server.{
  Request, Web, Response, status, done, Server, is_get, is_post, Target, target, everything,
  alerts_only, metrics_only, unknown,
}
use rfguard.Api.Handlers.{
  handle_access_control, post_access_control, after_update, handle_clear, clear_target,
  handle_restart, serve, serve_route, route, Route, to_status, to_metrics, to_alerts,
  to_access_control, to_clear, to_restart, to_ui, to_page, nowhere,
}

module _ {F : Type 0} where
  -- The state is as before, but for the file, or the request is a post that was answered with `ok`.
  abbrev pub IsKept : Request → Server F → Response F × Server F → Type 0
  IsKept r s (response, after) =
      (record after { disk = s.disk } ≡ s) ⊎ ((is_post r ≡ true) × (response ≡ done))

  either-IsKept :
      (r : Request) (s : Server F) (b : Bool) (x y : Response F × Server F)
      → IsKept r s x
      → IsKept r s y
      → IsKept r s (if b then x else y)
  either-IsKept r s true x y p q = p
  either-IsKept r s false x y p q = q

  when_post :
      (r : Request) (s : Server F) (b : Bool) (x y : Response F × Server F)
      → is_post r ≡ b
      → IsKept r s x
      → (is_post r ≡ true → IsKept r s y)
      → IsKept r s (if not b then x else y)
  when_post r s true x y h p q = q h
  when_post r s false x y h p q = p

  clear_target-IsKept :
      (web : Web) (r : Request) (s : Server F) (t : Target)
      → is_post r ≡ true
      → IsKept r s (clear_target web t s)
  clear_target-IsKept web r s everything post = inr (post, refl)
  clear_target-IsKept web r s alerts_only post = inr (post, refl)
  clear_target-IsKept web r s metrics_only post = inr (post, refl)
  clear_target-IsKept web r s unknown post = inl refl

  handle_clear-IsKept : (web : Web) (r : Request) (s : Server F) → IsKept r s (handle_clear web r s)
  unfolding handle_clear
  handle_clear-IsKept web r s =
      when_post r s (is_post r) (status 405, s) (clear_target web (target (web.target_of r.body)) s)
        refl (inl refl) (clear_target-IsKept web r s (target (web.target_of r.body)))

  handle_restart-IsKept :
      (web : Web) (r : Request) (s : Server F) → IsKept r s (handle_restart web r s)
  unfolding handle_restart
  handle_restart-IsKept web r s =
      when_post r s (is_post r) (status 405, s) _ refl (inl refl) (λ post. inr (post, refl))

  module _ ⦃d : Float F⦄ (codec : Codec F) (write : Write) (web : Web) where
    after_update-IsKept :
        (r : Request) (next : Config F) (s : Server F)
        (u : Outcome SaveError Bool × Manager F × Disk)
        → is_post r ≡ true
        → IsUpdated s.manager next u
        → IsKept r s (after_update web codec write next s u)
    after_update-IsKept r next s (ok b, m, disk) post k = inr (post, refl)
    after_update-IsKept r next s (err e, m, disk) post k =
        inl (ap (λ n. record s { manager = n }) k)

    post_access_control-IsKept :
        (r : Request) (s : Server F) (ac : Option AccessControlConfig)
        → is_post r ≡ true
        → IsKept r s (post_access_control web codec write ac s)
    post_access_control-IsKept r s none post = inl refl
    post_access_control-IsKept r s (some ac) post =
        after_update-IsKept r _ s _ post (update-IsUpdated codec write s.manager _ s.disk)

    posted_or_not :
        (r : Request) (s : Server F) (b : Bool) (x y : Response F × Server F)
        → is_post r ≡ b
        → (is_post r ≡ true → IsKept r s x)
        → IsKept r s y
        → IsKept r s (if b then x else y)
    posted_or_not r s true x y h p q = p h
    posted_or_not r s false x y h p q = q

    handle_access_control-IsKept :
        (r : Request) (s : Server F) → IsKept r s (handle_access_control web codec write r s)
    unfolding handle_access_control
    handle_access_control-IsKept r s =
        let put = post_access_control web codec write (web.access_of r.body) s in
        let answer = if r.body_fails then (status 400, s) else put in
        either-IsKept r s (is_get r) (_, s) (if is_post r then answer else (status 405, s))
          (inl refl)
          (posted_or_not r s (is_post r) answer (status 405, s) refl
            (λ post.
              either-IsKept r s r.body_fails (status 400, s) put (inl refl)
                (post_access_control-IsKept r s (web.access_of r.body) post))
            (inl refl))

    serve_route-IsKept :
        (to : Route) (now : Time) (r : Request) (s : Server F)
        → IsKept r s (serve_route web codec write to now r s)
    serve_route-IsKept to_status now r s = inl refl
    serve_route-IsKept to_metrics now r s = inl refl
    serve_route-IsKept to_alerts now r s = inl refl
    serve_route-IsKept to_access_control now r s = handle_access_control-IsKept r s
    serve_route-IsKept to_clear now r s = handle_clear-IsKept web r s
    serve_route-IsKept to_restart now r s = handle_restart-IsKept web r s
    serve_route-IsKept to_ui now r s = inl refl
    serve_route-IsKept to_page now r s = inl refl
    serve_route-IsKept nowhere now r s = inl refl

    -- Reading changes nothing, and neither does a request that is refused: whatever is asked of the
    -- server, its configuration, its engine and its stores are as before, unless the request is a post
    -- and the answer is `ok`.
    pub serve-IsKept :
        (now : Time) (r : Request) (s : Server F) → IsKept r s (serve web codec write now r s)
    unfolding serve
    serve-IsKept now r s = serve_route-IsKept (route r.path) now r s
