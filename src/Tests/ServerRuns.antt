-- ===== src/Tests/ServerRuns.antt =====
-- The API on small requests.
use rfguard.Common.Tests.{◌≡◌, refl, true, false, [], ◌∷◌, none, some, arith}
use rfguard.Common.Text.{codes, to_lower}
use rfguard.Common.Int.{ℤ, pos}
use rfguard.Common.Fixed.{fixed_float}
use rfguard.Config.{AccessControlConfig}
use rfguard.Config.Load.{Codec, saved_text, ext_from}
use rfguard.Config.Manager.{Write, get, update}
use rfguard.Access.{is_blacklisted, is_whitelisted}
use rfguard.Access.Policy.{policy}
use rfguard.Api.{sanitize_reader_lists}
use rfguard.Api.Server.{Request, Web, Server, done}
use rfguard.Api.Handlers.{handle_access_control, serve}
use rfguard.Api.Handlers.Posted.{handle_access_control_lem}
use rfguard.Api.Handlers.Effects.{IsKept, serve-IsKept}
use rfguard.Tests.{millis, test_config, test_engine}

abbrev pub codec : Codec ℤ
codec = record {
  from_json = λ text cfg. some cfg;
  from_yaml = λ text cfg. none;
  to_json = λ cfg. some (codes "{}");
  to_yaml = λ cfg. none;
}

abbrev pub write : Write
write text disk = (true, some (record { content = text; mod_time = pos 7 }))

abbrev pub ac : AccessControlConfig
ac = record {
  enabled = true;
  whitelist_only = false;
  whitelist = [];
  blacklist = codes " aa-11 " ∷ [];
  reader_whitelists = [];
  reader_blacklists = (codes "r1", codes "bb22" ∷ []) ∷ [];
}

abbrev pub web : Web
web = record {
  access_of = λ body. some ac;
  target_of = λ body. [];
  parse_rfc3339 = λ text. none;
  duration_text = λ d. [];
}

abbrev pub server : Server ℤ
server = record {
  manager = record { path = codes "rfguard.json"; cfg = test_config; mod_time = pos 0 };
  disk = none;
  engine = test_engine;
  has_engine = true;
  has_metrics = true;
  has_alerts = true;
  version = codes "dev";
}

abbrev request : Request
request = record {
  method = codes "POST";
  path = codes "/config/access_control";
  limit = [];
  since = [];
  body = [];
  body_fails = false;
}

handle_access_control_lem_example :
    let after = handle_access_control web ⦃d = fixed_float⦄ codec write request server in
    let access = some after.1.engine.access in
    (after.0 ≡ done)
    × (get after.1.manager ≡ after.1.engine.cfg)
    × (is_blacklisted access (codes "r1") (codes "AA11")
        ≡ policy ac.blacklist
            (sanitize_reader_lists ac.reader_blacklists)
            (codes "r1")
            (codes "AA11"))
    × (is_whitelisted access (codes "r1") (codes "AA11")
        ≡ policy ac.whitelist
            (sanitize_reader_lists ac.reader_whitelists)
            (codes "r1")
            (codes "AA11"))
unfolding update saved_text to_lower ext_from
handle_access_control_lem_example =
    handle_access_control_lem codec write web request server ac (codes "r1") (codes "AA11") refl
      refl refl refl refl refl (λ e. ground (arith, e))

serve-IsKept_example :
    IsKept request server (serve web ⦃d = fixed_float⦄ codec write (millis 0) request server)
serve-IsKept_example = serve-IsKept codec write web (millis 0) request server
