-- ===== src/FrontEnd/RequestManager/Handling.antt =====
-- The handler of every request returns, keeps what is known of users and sessions, and stays with the sessions
-- of the user that is logged in from its address.
use re_mo_lon.Common.{
  ℕ, suc, ◌≡◌, refl, ◌⊎◌, inl, inr, [], ◌∷◌, none, some, true, false, ◌||◌, not, arith, Bool-cases,
  Option-cases,
}
use re_mo_lon.Common.Eq.{Text, text_eq, codes}
use re_mo_lon.Common.Assoc
use re_mo_lon.FrontEnd.User.{User}
use re_mo_lon.FrontEnd.UserManager.{System, is_user_logged_in}
use re_mo_lon.FrontEnd.UserManager.LogIn.{try_auth_user-Keyed}
use re_mo_lon.FrontEnd.SessionTracker.{Tracker, get_user_sessions, try_finish_session}
use re_mo_lon.FrontEnd.SessionTracker.Calls.{Within-Inv}
use re_mo_lon.FrontEnd.XmlBuilder.{xml_build_session_list}
use re_mo_lon.FrontEnd.HttpActions.{
  Request, Response, Front, http_ok, http_bad_request, http_not_found, set_status, send, auth_page,
  index_page, put_user, form_has, form_get, log_in, handle_default, handle_log_in,
  handle_session_list, handle_create, handle_destroy,
}
use re_mo_lon.FrontEnd.RequestManager.{
  ActionHandler, Handlers, action_of, handle_action, handle_request, default_handler,
  log_in_handler, session_list_handler, create_handler, destroy_handler,
}
use re_mo_lon.FrontEnd.RequestManager.Isolation.{
  FrontInv, Isolated, session_at-listed, finished, create_named-Isolated, finish-FrontInv,
}

text-cases : (s : Text) → (s ≡ []) ⊎ ((c : ℕ) × (t : Text) × (s ≡ c ∷ t))
text-cases [] = inl refl
text-cases (c ∷ t) = inr (c, t, refl)

module _ (sys : System) (request : Request) (response : Response) (f : Front) (h : FrontInv f)
    (u n : Text) where
  is_in :
      (usr : User)
      → Assoc.find request.client_address f.users ≡ some usr
      → is_user_logged_in request.client_address f.users ≡ true
  unfolding is_user_logged_in
  is_in usr e = rw (is_user_logged_in, e) refl

  is_out :
      Assoc.find request.client_address f.users ≡ none
      → is_user_logged_in request.client_address f.users ≡ false
  unfolding is_user_logged_in
  is_out e = rw (is_user_logged_in, e) refl

  log_in-FrontInv : FrontInv (record f { users = (log_in sys request f.users).1 })
  log_in-FrontInv =
      let keyed =
        try_auth_user-Keyed sys request.client_address (form_get (codes "uname") [] request)
          (form_get (codes "psw") [] request) f.users h.keyed in
      elim (Bool-cases
        (not (form_has (codes "uname") request) || not (form_has (codes "psw") request))) [
          | inl missing ↦ rw missing h
          | inr present ↦ rw present (record { sessions = h.sessions; keyed = keyed })
        ]

  handle_log_in-Isolated :
      Isolated request.client_address f u n (handle_log_in sys request response f)
  unfolding handle_log_in
  handle_log_in-Isolated =
      let r : Response = set_status http_ok response in
      let users = (log_in sys request f.users).1 in
      let f' : Front = record f { users = users } in
      elim (Bool-cases (log_in sys request f.users).0) [
        | inr refused ↦ (auth_page r, f', rw refused refl, log_in-FrontInv, inr refl)
        | inl admitted ↦ elim (Bool-cases (is_user_logged_in request.client_address users)) [
          | inl inside ↦ (index_page r, f', rw (admitted, inside) refl, log_in-FrontInv, inr refl)
          | inr outside ↦ (r, f', rw (admitted, outside) refl, log_in-FrontInv, inr refl)
        ]
      ]

  handle_session_list-Isolated :
      Isolated request.client_address f u n (handle_session_list request response f)
  unfolding handle_session_list xml_build_session_list
  handle_session_list-Isolated =
      let r : Response = set_status http_ok response in
      elim (Option-cases (Assoc.find request.client_address f.users)) [
        | inl e ↦ (auth_page r, f, rw (is_out e) refl, h, inr refl)
        | inr (usr, e) ↦
            let s = f.tracker.open_sessions in
            let t : Tracker = record f.tracker { open_sessions = (get_user_sessions usr s).1 } in
            (
              send (xml_build_session_list usr s).0 r,
              record f { tracker = t },
              rw (is_in usr e, e) refl,
              record {
                sessions =
                    Within-Inv f.tracker t refl
                      (λ u' n' i' e'.
                        (i', ground (arith, session_at-listed usr s u' n'), refl, refl))
                      h.sessions;
                keyed = h.keyed;
              },
              inr (session_at-listed usr s u n),
            )
      ]

  handle_create-Isolated :
      (fuel : ℕ)
      → Isolated request.client_address f u n (handle_create (suc fuel) request response f)
  unfolding handle_create
  handle_create-Isolated fuel =
      let r : Response = set_status http_ok response in
      elim (Option-cases (Assoc.find request.client_address f.users)) [
        | inl e ↦ (auth_page r, f, rw (is_out e) refl, h, inr refl)
        | inr (usr, e) ↦ elim (text-cases (form_get (codes "session_name") [] request)) [
          | inl unnamed ↦ (
            send (codes "No session name specified") (set_status http_bad_request r),
            f,
            rw (is_in usr e, unnamed) refl,
            h,
            inr refl,
          )
          | inr (c, name, given) ↦
              rw (is_in usr e, given, e)
                (create_named-Isolated f h u n request.client_address usr (c ∷ name) e fuel r)
        ]
      ]

  handle_destroy-Isolated :
      Isolated request.client_address f u n (handle_destroy request response f)
  unfolding handle_destroy
  handle_destroy-Isolated =
      let r : Response = set_status http_ok response in
      let name = form_get (codes "id") [] request in
      elim (Option-cases (Assoc.find request.client_address f.users)) [
        | inl e ↦ (auth_page r, f, rw (is_out e) refl, h, inr refl)
        | inr (usr, e) ↦ (
          r,
          put_user request.client_address (try_finish_session usr name f.tracker).0
              (try_finish_session usr name f.tracker).1 f,
          rw (is_in usr e, e) refl,
          finish-FrontInv f h u n request.client_address usr name e,
          finished f h u n request.client_address usr name e,
        )
      ]

  handle_default-Isolated :
      Isolated request.client_address f u n (handle_default request response f)
  unfolding handle_default
  handle_default-Isolated =
      let r : Response = set_status http_ok response in
      elim (Bool-cases (is_user_logged_in request.client_address f.users)) [
        | inl inside ↦ (index_page r, f, rw inside refl, h, inr refl)
        | inr outside ↦ (auth_page r, f, rw outside refl, h, inr refl)
      ]

  handle_action-Isolated :
      (handler : ActionHandler) (fuel : ℕ)
      → Isolated request.client_address f u n
          (handle_action handler (suc fuel) sys request response f)
  unfolding handle_action
  handle_action-Isolated default_handler fuel = handle_default-Isolated
  handle_action-Isolated log_in_handler fuel = handle_log_in-Isolated
  handle_action-Isolated session_list_handler fuel = handle_session_list-Isolated
  handle_action-Isolated create_handler fuel = handle_create-Isolated fuel
  handle_action-Isolated destroy_handler fuel = handle_destroy-Isolated

-- For any table of handlers, where the invariant of the sessions holds, no address stands twice
-- among the users and every user stands under its own address: the handling of a request returns
-- with one round of the search for a slot, whether or not it has sent anything, all this still
-- holds, and session `n` of user `u` is as before unless the request comes from an address where a
-- user of that name is logged in.
pub handle_request-Isolated :
    (handlers : Handlers) (fuel : ℕ) (sys : System) (request : Request) (response : Response)
    (f : Front) (u n : Text)
    → FrontInv f
    → Isolated request.client_address f u n
        (handle_request handlers (suc fuel) sys request response f)
unfolding handle_request
handle_request-Isolated handlers fuel sys request response f u n h =
    elim (Option-cases (Assoc.find (action_of request.uri) handlers)) [
      | inl no_handler ↦
          (set_status http_not_found response, f, rw (handle_request, no_handler) refl, h, inr refl)
      | inr (handler, e) ↦
          rw (handle_request, e) (handle_action-Isolated sys request response f h u n handler fuel)
    ]
