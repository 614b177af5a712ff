-- ===== src/Api.antt =====
-- internal/api/server.go: how the access-control handler cleans the lists that it is sent. The state
-- and the handlers stand in Api/Server and Api/Handlers.
pub mod Sanitize
pub mod Server
pub mod Handlers
use rfguard.Common.Tests.{Bool, true, false, ◌||◌, List, [], ◌∷◌, Option, none, some, if◌then◌else◌}
use rfguard.Common.Text.{Text, text_eq, is_empty, trim_space}
use rfguard.Common.Maps.{Map, insert}
use rfguard.Config.{is_nil}

unfoldable pub sanitize_uid_list : List Text → List Text
sanitize_uid_list [] = []
sanitize_uid_list (v ∷ values) =
    let rest = sanitize_uid_list values in
    if is_empty (trim_space v) then rest else trim_space v ∷ rest

-- The loop of `sanitizeReaderLists`: of two readers that trim to one, the later stays.
unfoldable pub sanitize_loop : Map Text (List Text) → Map Text (List Text) → Map Text (List Text)
unfolding sanitize_uid_list
sanitize_loop [] out = out
sanitize_loop ((reader, list) ∷ values) out = sanitize_loop values (
    if is_empty (trim_space reader) || is_nil (sanitize_uid_list list)
    then out
    else insert (trim_space reader) (sanitize_uid_list list) out)

-- A nil map is the empty one.
unfoldable pub sanitize_reader_lists : Map Text (List Text) → Map Text (List Text)
unfolding sanitize_loop
sanitize_reader_lists values = sanitize_loop values []
