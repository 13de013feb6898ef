-- ===== src/FrontEnd/RequestManager/Guards.antt =====
-- What a request can do from an address where no user is logged in.
use re_mo_lon.Common.{ℕ, ◌≡◌, ◌⊎◌, none, some, true}
use re_mo_lon.Common.Eq.{Text, text_eq, codes}
use re_mo_lon.Common.Assoc
use re_mo_lon.FrontEnd.UserManager.{System, try_auth_user}
use re_mo_lon.FrontEnd.HttpActions.{
  Request, Response, Front, Reply, returned, http_ok, http_not_found, set_status, auth_page,
  index_page,
}
use re_mo_lon.FrontEnd.RequestManager.{Handlers, action_of, log_in_handler}

-- The form has a name and a password with which a user is logged in.
abbrev pub LogsIn : System → Request → Front → Front → Type 0
LogsIn sys request f f' =
    (name pwd : Text) × (request.form (codes "uname") ≡ some name)
    × (request.form (codes "psw") ≡ some pwd)
    × (try_auth_user sys request.client_address name pwd f.users ≡ (true, f'.users))

-- Nothing changes, and either no handler has the action and only the status of the response is set,
-- or the page to log in is sent; or else the request is a log in that is accepted.
abbrev pub Refused : System → Handlers → Request → Response → Front → Response → Front → Type 0
Refused sys handlers request response f r f' =
    ((f'.users ≡ f.users)
      × (((Assoc.find (action_of request.uri) handlers ≡ none)
            × (r ≡ set_status http_not_found response))
          ⊎ (r ≡ auth_page (set_status http_ok response))))
    ⊎ ((Assoc.find (action_of request.uri) handlers ≡ some log_in_handler)
        × LogsIn sys request f f'
        × (r ≡ index_page (set_status http_ok response)))

abbrev pub Guarded : System → Handlers → Request → Response → Front → Reply → Type 0
Guarded sys handlers request response f reply =
    (r : Response) × (f' : Front) × (reply ≡ returned r f')
    × (f'.tracker ≡ f.tracker)
    × Refused sys handlers request response f r f'

module _ (handlers : Handlers) (fuel : ℕ) (sys : System) (request : Request) (response : Response)
    (f : Front) (nobody : Assoc.find request.client_address f.users ≡ none) where
  abbrev Here : Reply → Type 0
  Here = Guarded sys handlers request response f

  abbrev to_log_in : Response
  to_log_in = auth_page (set_status http_ok response)
