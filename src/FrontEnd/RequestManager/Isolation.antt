-- ===== src/FrontEnd/RequestManager/Isolation.antt =====
-- What a request from a user's address can do to the sessions of other users.
use re_mo_lon.Common.{ℕ, suc, ◌≡◌, refl, ◌∙◌, ◌⊎◌, inl, inr, none, some, Bool, true, false, arith}
use re_mo_lon.Common.Eq.{Text, text_eq, text_beq_iff, ◌==◌}
use re_mo_lon.Common.Assoc
use re_mo_lon.Common.Assoc.{find-assign, find-nil}
use re_mo_lon.FrontEnd.User.{User, get_user_name, add_session, remove_session}
use re_mo_lon.FrontEnd.UserManager.{Users}
use re_mo_lon.FrontEnd.UserManager.LogIn.{Keyed, assign-Keyed}
use re_mo_lon.FrontEnd.VisualizationNode.{VisualizationNode}
use re_mo_lon.FrontEnd.NodeManager.{NodeManager, put_node}
use re_mo_lon.FrontEnd.SessionTracker.{
  Tracker, creation_ok, fail_duplicate_name, fail_no_available_nodes, SessionInfo, OpenSessions,
  sessions_of, get_user_sessions, enter_session, new_session, try_finish_session, finish_session,
}
use re_mo_lon.FrontEnd.SessionTracker.Lookup.{session_at, session_at-set, session_at-try_finish}
use re_mo_lon.FrontEnd.SessionTracker.Exclusive.{Inv, entered-Inv}
use re_mo_lon.FrontEnd.SessionTracker.Calls.{
  Within-Inv, try_create_session-cases, try_finish_session-nodes, try_finish_session-Within,
}
use re_mo_lon.FrontEnd.HttpActions.{
  Response, Front, Reply, returned, put_user, creation_response, create_named,
}

pub record FrontInv (f : Front) : Type 0 where
  pub sessions : Inv f.tracker
  pub keyed : Keyed f.users

-- The user of that name is logged in from the address.
abbrev pub is_named : Text → Users → Text → Bool
is_named ip users u = elim (Assoc.find ip users) [
  | none ↦ false
  | some usr ↦ get_user_name usr == u
]

-- The handler returns, the invariant holds, and session `n` of user `u` is as before unless the
-- request comes from an address where a user of that name is logged in.
abbrev pub Isolated : Text → Front → Text → Text → Reply → Type 0
Isolated ip f u n reply =
    (r : Response) × (f' : Front) × (reply ≡ returned r f')
    × FrontInv f'
    × ((is_named ip f.users u ≡ true)
        ⊎ (session_at u n f'.tracker.open_sessions ≡ session_at u n f.tracker.open_sessions))

pub session_at-listed :
    (usr : User) (s : OpenSessions) (u n : Text)
    → session_at u n (get_user_sessions usr s).1 ≡ session_at u n s
unfolding session_at get_user_sessions
session_at-listed usr s u n =
    let k : Text = get_user_name usr in
    ground
      (arith, find-assign k u (sessions_of k s) s, text_beq_iff k u, find-nil {V = SessionInfo} n)

pub finished-address :
    (usr : User) (name : Text) (t : Tracker)
    → (try_finish_session usr name t).0.ip_address ≡ usr.ip_address
unfolding try_finish_session finish_session remove_session
finished-address usr name t = ground arith

module _ (f : Front) (h : FrontInv f) (u n : Text) (ip : Text) (usr : User) (name : Text)
    (there : Assoc.find ip f.users ≡ some usr) where
  named : (get_user_name usr == u) ≡ true → is_named ip f.users u ≡ true
  named e = ground (arith, there, e)

  entered :
      (n' : VisualizationNode) (p : ℕ) (m' : NodeManager)
      → (is_named ip f.users u ≡ true)
        ⊎ (session_at u n (enter_session usr name n' p m' f.tracker).2.open_sessions
            ≡ session_at u n f.tracker.open_sessions)
  unfolding enter_session
  entered n' p m' = ground (
    arith,
    there,
    session_at-set usr name (new_session usr name n' p) f.tracker.open_sessions u n,
  )

  pub finished :
      (is_named ip f.users u ≡ true)
      ⊎ (session_at u n (try_finish_session usr name f.tracker).1.open_sessions
          ≡ session_at u n f.tracker.open_sessions)
  finished = ground (arith, there, session_at-try_finish usr name f.tracker u n)

  address : usr.ip_address ≡ ip
  address = h.keyed.addressed ip usr there

  -- The user is written back, and the rest of the tracker is unchanged for other names.
  put_user-FrontInv :
      (usr' : User) (t : Tracker) → usr'.ip_address ≡ ip → Inv t → FrontInv (put_user ip usr' t f)
  put_user-FrontInv usr' t e i = record {
    sessions = i;
    keyed = assign-Keyed ip usr' f.users e h.keyed;
  }

  pub create_named-Isolated :
      (fuel : ℕ) (r : Response) → Isolated ip f u n (create_named (suc fuel) ip usr name r f)
  unfolding create_named enter_session add_session
  create_named-Isolated fuel r =
      let t = f.tracker in
      elim (try_create_session-cases fuel usr name t h.sessions.nodes_valid.counted) [
        | inl (_, _, c) ↦ (
          creation_response fail_duplicate_name name r,
          put_user ip usr t f,
          rw (create_named, c) refl,
          put_user-FrontInv usr t address h.sessions,
          inr refl,
        )
        | inr (inl (_, _, c)) ↦ (
          creation_response fail_no_available_nodes name r,
          put_user ip usr t f,
          rw (create_named, c) refl,
          put_user-FrontInv usr t address h.sessions,
          inr refl,
        )
        | inr (inr (a, node, node', p, _, _, c, among, reserved)) ↦
            let m' = put_node a node' t.nodes in
            (
              creation_response creation_ok name r,
              put_user ip (enter_session usr name node' p m' t).1
                  (enter_session usr name node' p m' t).2 f,
              rw (create_named, c, enter_session) refl,
              put_user-FrontInv _ _ address
                  (entered-Inv usr name t h.sessions a node node' p among reserved),
              entered node' p m',
            )
      ]

  pub finish-FrontInv : FrontInv (
      put_user ip
        (try_finish_session usr name f.tracker).0
        (try_finish_session usr name f.tracker).1
        f)
  finish-FrontInv = put_user-FrontInv _ _ (finished-address usr name f.tracker ∙ address) (
      Within-Inv f.tracker _ (try_finish_session-nodes usr name f.tracker)
        (try_finish_session-Within usr name f.tracker) h.sessions)
