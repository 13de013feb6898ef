-- ===== src/FrontEnd/HttpActions.antt =====
-- ReMoLON_FrontEnd/src/httpactions: what each action of the web client does. A request is handled in
-- one step. Of Poco's classes a request is the host of its client address, its URI and the fields of
-- its form, and a response is its status, content type and body, where no body means that `send`
-- was not called. The fuel is that of the search for a slot.
use re_mo_lon.Common.{
  ℕ, [], ◌∷◌, ◌++◌, Option, none, some, Bool, true, false, if◌then◌else◌, not, ◌||◌,
}
use re_mo_lon.Common.Eq.{Text, text_eq, codes}
use re_mo_lon.Common.Assoc
use re_mo_lon.FrontEnd.User.{User}
use re_mo_lon.FrontEnd.UserManager.{System, Users, is_user_logged_in, try_auth_user, get_user}
use re_mo_lon.FrontEnd.SessionTracker.{
  Tracker, CreationResult, creation_ok, fail_duplicate_name, fail_no_available_nodes,
  try_create_session, try_finish_session,
}
use re_mo_lon.FrontEnd.XmlBuilder.{xml_build_session_list}

pub record Request : Type 0 where
  pub client_address : Text
  pub uri : Text
  pub form : Text → Option Text

pub data Status : Type 0 where
  http_ok http_bad_request http_forbidden http_not_found : Status

-- The contents of a file, or a text.
pub data Body : Type 0 where
  file : Text → Body
  bytes : Text → Body

pub record Response : Type 0 where
  pub status : Status
  pub content_type : Option Text
  pub body : Option Body

-- The two singletons that the handlers use.
pub record Front : Type 0 where
  pub users : Users
  pub tracker : Tracker

pub data Reply : Type 0 where
  -- The handler returns. What it has sent is the body of the response, and nothing without one.
  returned : Response → Front → Reply
  -- The search for a slot has not ended within the fuel.
  still_running : Reply
  -- A null pointer is followed.
  fault : Reply

abbrev pub form_has : Text → Request → Bool
form_has name request = elim (request.form name) [ none ↦ false | some _ ↦ true ]

abbrev pub form_get : Text → Text → Request → Text
form_get name default_value request = elim (request.form name) [
  | none ↦ default_value
  | some value ↦ value
]

abbrev pub set_status : Status → Response → Response
set_status s r = record r { status = s }

abbrev pub send : Text → Response → Response
send text r = record r { body = some (bytes text) }

abbrev pub send_page : Text → Response → Response
send_page path r = record r { content_type = some (codes "text/html"); body = some (file path) }

abbrev pub auth_page : Response → Response
auth_page r = send_page (codes "FEClient/auth.html") r

abbrev pub index_page : Response → Response
index_page r = send_page (codes "FEClient/index.html") r

abbrev pub forbidden : Response → Response
forbidden r =
    send (codes "Unauthorized access from non identified used") (set_status http_forbidden r)

-- `*usr` is the user at the address.
abbrev pub put_user : Text → User → Tracker → Front → Front
put_user ip user t f = record f { users = Assoc.assign ip user f.users; tracker = t }

-- DefaultActionHandler
unfoldable pub handle_default : Request → Response → Front → Reply
handle_default request response f =
    let r = set_status http_ok response in
    if not (is_user_logged_in request.client_address f.users)
    then returned (auth_page r) f
    else returned (index_page r) f

-- LogInActionHandler. `tryAuthUser` is called when the form has both fields.
abbrev pub log_in : System → Request → Users → Bool × Users
log_in sys request users =
    if not (form_has (codes "uname") request) || not (form_has (codes "psw") request)
    then (false, users)
    else try_auth_user sys request.client_address (form_get (codes "uname") [] request)
        (form_get (codes "psw") [] request) users

unfoldable pub handle_log_in : System → Request → Response → Front → Reply
handle_log_in sys request response f =
    let r = set_status http_ok response in
    let (admitted, users) = log_in sys request f.users in
    let f' : Front = record f { users = users } in
    if not admitted
    then returned (auth_page r) f'
    else (if is_user_logged_in request.client_address users
        then returned (index_page r) f'
        else returned r f')

-- SessionListActionHandler
unfoldable pub handle_session_list : Request → Response → Front → Reply
handle_session_list request response f =
    let r = set_status http_ok response in
    if not (is_user_logged_in request.client_address f.users)
    then returned (auth_page r) f
    else elim (get_user request.client_address f.users) [
      | none ↦ returned (forbidden r) f
      | some usr ↦
          let (result, s) = xml_build_session_list usr f.tracker.open_sessions in
          returned (send result r) (record f { tracker = record f.tracker { open_sessions = s } })
    ]

-- The switch over the result.
abbrev pub creation_response : CreationResult → Text → Response → Response
creation_response creation_ok name r = send [] r
creation_response fail_duplicate_name name r =
    send (codes "A session with the name " ++ name ++ codes " already exists.")
      (set_status http_bad_request r)
creation_response fail_no_available_nodes name r =
    send
      (codes
        "There are not available resources to create a new streaming session. Try again later.")
      (set_status http_bad_request r)

-- CreateSessionActionHandler, for a user that is logged in.
unfoldable pub create_named : ℕ → Text → User → Text → Response → Front → Reply
create_named fuel ip usr name r f = elim (try_create_session fuel usr name f.tracker) [
  | none ↦ still_running
  | some (result, usr', t) ↦ returned (creation_response result name r) (put_user ip usr' t f)
]

unfoldable pub handle_create : ℕ → Request → Response → Front → Reply
handle_create fuel request response f =
    let r = set_status http_ok response in
    let ip = request.client_address in
    if not (is_user_logged_in ip f.users)
    then returned (auth_page r) f
    else elim (form_get (codes "session_name") [] request) [
      | [] ↦ returned (send (codes "No session name specified") (set_status http_bad_request r)) f
      | c ∷ name ↦ elim (get_user ip f.users) [
        | none ↦ returned (forbidden r) f
        | some usr ↦ create_named fuel ip usr (c ∷ name) r f
      ]
    ]

-- DestroySessionActionHandler: nothing is sent to a user that is logged in.
unfoldable pub handle_destroy : Request → Response → Front → Reply
handle_destroy request response f =
    let r = set_status http_ok response in
    let ip = request.client_address in
    if not (is_user_logged_in ip f.users)
    then returned (auth_page r) f
    else elim (get_user ip f.users) [
      | none ↦ fault
      | some usr ↦
          let (usr', t) = try_finish_session usr (form_get (codes "id") [] request) f.tracker in
          returned r (put_user ip usr' t f)
    ]
