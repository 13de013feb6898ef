-- ===== src/FrontEnd/RequestManager.antt =====
-- ReMoLON_FrontEnd/include/RequestManager.h and ReMoLON_FrontEnd/src/RequestManager.cpp, with the
-- handlers that ReMoLON_FrontEnd/src/WebServer.cpp registers.
pub mod Guards
pub mod Isolation
pub mod Handling
use re_mo_lon.Common.{ℕ, List, [], ◌∷◌, Option, none, some, nat_beq, if◌then◌else◌}
use re_mo_lon.Common.Eq.{Text, text_eq, codes}
use re_mo_lon.Common.Assoc
use re_mo_lon.FrontEnd.UserManager.{System}
use re_mo_lon.FrontEnd.HttpActions.{
  Request, Response, Front, Reply, returned, set_status, http_not_found, handle_default,
  handle_log_in, handle_session_list, handle_create, handle_destroy,
}

-- The classes of handlers.
pub data ActionHandler : Type 0 where
  default_handler log_in_handler session_list_handler create_handler destroy_handler : ActionHandler

abbrev pub get_action : ActionHandler → Text
get_action default_handler = []
get_action log_in_handler = codes "authenticate"
get_action session_list_handler = codes "RefreshSessionList"
get_action create_handler = codes "CreateSession"
get_action destroy_handler = codes "DestroySession"

unfoldable pub handle_action : ActionHandler → ℕ → System → Request → Response → Front → Reply
handle_action default_handler fuel sys request response f = handle_default request response f
handle_action log_in_handler fuel sys request response f = handle_log_in sys request response f
handle_action session_list_handler fuel sys request response f =
    handle_session_list request response f
handle_action create_handler fuel sys request response f = handle_create fuel request response f
handle_action destroy_handler fuel sys request response f = handle_destroy request response f

abbrev pub Handlers : Type 0
Handlers = List (Text × ActionHandler)

-- Every class of handlers is derived from `AbstractActionHandler`.
abbrev pub register_action_handler : ActionHandler → Handlers → Handlers
register_action_handler h handlers = Assoc.assign (get_action h) h handlers

-- What `WebServer::main` registers.
unfoldable pub web_handlers : Handlers
web_handlers = register_action_handler destroy_handler (
    register_action_handler create_handler (
      register_action_handler session_list_handler
        (register_action_handler log_in_handler (register_action_handler default_handler []))))

-- The URI without the slash in front, which is 47.
abbrev pub action_of : Text → Text
action_of [] = []
action_of (c ∷ uri) = if nat_beq c 47 then uri else c ∷ uri

unfoldable pub handle_request : Handlers → ℕ → System → Request → Response → Front → Reply
handle_request handlers fuel sys request response f =
    elim (Assoc.find (action_of request.uri) handlers) [
      | none ↦ returned (set_status http_not_found response) f
      | some handler ↦ handle_action handler fuel sys request response f
    ]
