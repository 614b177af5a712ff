-- ===== src/Api/Handlers/Posted.antt =====
-- What a posted access control does to the engine.
use rfguard.Common.Tests.{
  ◌≡◌, ◌≢◌, refl, ap, sym, ◌∙◌, Bool, true, false, ◌||◌, List, [], some, arith,
}
use rfguard.Common.Eq.{◌==◌}
use rfguard.Common.Maps.{Map}
use rfguard.Common.Result.{Outcome, ok, err}
use rfguard.Common.Text.{Text, text_eq, eq_text_iff, codes}
use rfguard.Common.Float.{Float}
use rfguard.Config.{Config, AccessControlConfig}
use rfguard.Config.Load.{Codec, SaveError}
use rfguard.Config.Manager.{Disk, Manager, Write, get, update}
use rfguard.Config.Manager.Kept.{with_access}
use rfguard.Config.Manager.Updated.{IsUpdated-get, update-IsUpdated}
use rfguard.Access.{build_access_control, is_blacklisted, is_whitelisted}
use rfguard.Access.Policy.{policy, policy_lem, lists_for}
use rfguard.Engine.{update_config}
use rfguard.Api.{sanitize_reader_lists, sanitize_uid_list}
use rfguard.Api.Sanitize.{sanitize_uid_list_lem, sanitize_reader_lists-IsClean}
use rfguard.Api.Server.{Request, Web, Response, done, Server, is_get, is_post, sanitized}
use rfguard.Api.Handlers.{handle_access_control, post_access_control, after_update}

not_get_of_post : (r : Request) → is_post r ≡ true → is_get r ≡ false
not_get_of_post r h = ap (λ m. m == codes "GET") ((eq_text_iff r.method (codes "POST")).0 h)

policy-sanitized :
    (values : List Text) (by_reader : Map Text (List Text)) (reader_id uid : Text)
    → uid ≢ []
    → policy (sanitize_uid_list values) by_reader reader_id uid
      ≡ policy values by_reader reader_id uid
policy-sanitized values by_reader reader_id uid h =
    ap (λ b. b || lists_for by_reader reader_id uid) (sanitize_uid_list_lem values uid h).0

module _ {F : Type 0} ⦃d : Float F⦄ (codec : Codec F) (write : Write) (web : Web) where
  -- The server after a write that succeeded.
  record IsInForce (cfg : Config F) (after : Response F × Server F) : Type 0 where
    answer : after.0 ≡ done
    manager : get after.1.manager ≡ cfg
    engine : after.1.engine.cfg ≡ cfg
    access : after.1.engine.access ≡ build_access_control cfg.access_control

  after_update-IsInForce :
      (next : Config F) (s : Server F) (u : Outcome SaveError Bool × Manager F × Disk)
      → s.has_engine ≡ true
      → u.0 ≡ ok true
      → get u.1 ≡ next
      → IsInForce next (after_update web codec write next s u)
  unfolding update_config
  after_update-IsInForce next s (err e, m, disk) has h g = ground (arith, h)
  after_update-IsInForce next s (ok b, m, disk) has h g = record {
    answer = refl;
    manager = g;
    engine = rw has refl;
    access = rw has refl;
  }

  posted :
      (r : Request) (s : Server F) (ac : AccessControlConfig)
      → is_post r ≡ true
      → r.body_fails ≡ false
      → web.access_of r.body ≡ some ac
      → handle_access_control web codec write r s ≡ post_access_control web codec write (some ac) s
  unfolding handle_access_control
  posted r s ac p b a = rw (handle_access_control, not_get_of_post r p, p, b, a) refl

  -- What an accepted post puts in force: if the body decodes and the file is written, then the answer
  -- is `ok`, the manager and the engine have the same configuration, and the engine decides every
  -- enabled policy by the lists that were sent, those by reader as cleaned.
  pub handle_access_control_lem :
      (r : Request) (s : Server F) (ac : AccessControlConfig) (reader_id uid : Text)
      → is_post r ≡ true
      → r.body_fails ≡ false
      → web.access_of r.body ≡ some ac
      → s.has_engine ≡ true
      → (update codec write s.manager (some (with_access (sanitized ac) (get s.manager))) s.disk).0
        ≡ ok true
      → ac.enabled ≡ true
      → uid ≢ []
      → let after = handle_access_control web codec write r s in
        let access = some after.1.engine.access in
        (after.0 ≡ done)
        × (get after.1.manager ≡ after.1.engine.cfg)
        × (is_blacklisted access reader_id uid
            ≡ policy ac.blacklist (sanitize_reader_lists ac.reader_blacklists) reader_id uid)
        × (is_whitelisted access reader_id uid
            ≡ policy ac.whitelist (sanitize_reader_lists ac.reader_whitelists) reader_id uid)
  unfolding sanitized
  handle_access_control_lem r s ac reader_id uid p b a has written on nonempty =
      let next = with_access (sanitized ac) (get s.manager) in
      let u = update codec write s.manager (some next) s.disk in
      let now = after_update-IsInForce next s u has written (
        IsUpdated-get s.manager next u (update-IsUpdated codec write s.manager next s.disk)
          written) in
      let black = (sanitize_reader_lists-IsClean ac.reader_blacklists).distinct in
      let white = (sanitize_reader_lists-IsClean ac.reader_whitelists).distinct in
      let answers = policy_lem (sanitized ac) reader_id uid on nonempty black white in
      rw (posted r s ac p b a, now.access)
        (
          now.answer,
          now.manager ∙ sym now.engine,
          answers.0
              ∙ policy-sanitized ac.blacklist (sanitize_reader_lists ac.reader_blacklists) reader_id
                  uid nonempty,
          answers.1
              ∙ policy-sanitized ac.whitelist (sanitize_reader_lists ac.reader_whitelists) reader_id
                  uid nonempty,
        )
