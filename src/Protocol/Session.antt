-- ===== src/Protocol/Session.antt =====
-- A session from the front end's tracker to the node and back.
use re_mo_lon.Common.{
  ℕ, ◌%◌, ◌^◌, ◌<◌, ◌≡◌, ◌≢◌, refl, ap, ◌∙◌, ◌⊎◌, inl, inr, [], Option, some, Bool, true, false,
  arith,
}
use re_mo_lon.Common.Eq.{Text, text_eq, ==_refl}
use re_mo_lon.FrontEnd.User.{User, get_user_name, get_address}
use re_mo_lon.FrontEnd.Packets.{SessionResult, start_streaming_session_result}
use re_mo_lon.FrontEnd.VisualizationNode.{VisualizationNode}
use re_mo_lon.FrontEnd.NodeManager.{NodeManager}
use re_mo_lon.FrontEnd.UserManager.{get_user_by_name}
use re_mo_lon.FrontEnd.UserManager.LogIn.{Keyed, get_user_by_name_lem}
use re_mo_lon.FrontEnd.SessionTracker.{
  Tracker, SessionInfo, SessionStatus, running, crashed, new_session, start_packet, enter_session,
  result_status,
}
use re_mo_lon.FrontEnd.SessionTracker.Lookup.{session_at-set}
use re_mo_lon.FrontEnd.HttpActions.{Front}
use re_mo_lon.FrontEnd.Answers.{execute_packet_action}
use re_mo_lon.FrontEnd.Answers.Effects.{session_of, execute_packet_action_lem}
use re_mo_lon.Node.Packets as Node
use re_mo_lon.Node.SessionManager.{SessionManager, StreamingSession, start_new_session, launch_ok}
use re_mo_lon.Node.SessionManager.Sessions.{session_at, session_at-put}
use re_mo_lon.Node.SessionManager.Invariant.{Inv}
use re_mo_lon.Node.SessionManager.Calls.{
  Started, unavailable, duplicate_name, started, start_status-Started, made,
}
use re_mo_lon.Node.SessionManager.Handlers.{handle_request}
use re_mo_lon.Protocol.Requests.{received}

-- The node has the session, on that web port.
abbrev pub Serves : Text → Text → ℕ → SessionManager → Type 0
Serves owner name port m =
    (s : StreamingSession) × (session_at owner name m.stream_sessions ≡ some s)
    × (s.session_port ≡ port)

-- A start has the status 0 only where the session stands.
Started-Serves :
    (launched : Bool) (owner address name : Text) (port status : ℕ) (m m' : SessionManager)
    → Started launched owner address name port m status m'
    → ((status ≡ launch_ok) × Serves owner name port m') ⊎ (status ≢ launch_ok)
Started-Serves launched owner address name port _ m _ (unavailable why) =
    inr (λ e. omega (arith, e))
Started-Serves launched owner address name port _ m _ (duplicate_name k e free) =
    inr (λ e. omega (arith, e))
Started-Serves true owner address name port _ m _ (started none_there free) =
    let s = made owner address name port m in
    inl (
      refl,
      (
        s,
        ground (
          arith,
          session_at-put s owner name m.stream_sessions owner name,
          ==_refl owner,
          ==_refl name,
        ),
        refl,
      ),
    )
Started-Serves false owner address name port _ m _ (started none_there free) =
    inr (λ e. omega (arith, e))

-- The session that the tracker shows after the answer of the node.
abbrev pub shown : User → Text → ℕ → Front → Option SessionInfo
shown user name status f = session_of (get_user_name user) name (
    execute_packet_action
      (start_streaming_session_result
        (record { user_name = get_user_name user; session_name = name; status = status }))
      f)

module _ (user : User) (name : Text) (node : VisualizationNode) (p : ℕ) (t : Tracker)
    (m : NodeManager) (f : Front) (k : Keyed f.users)
    (entered : f.tracker ≡ (enter_session user name node p m t).2) (usr : Text × User)
    (there : get_user_by_name (get_user_name user) f.users ≡ some usr) where
  waiting : session_of (get_user_name user) name f ≡ some (new_session user name node p)
  unfolding enter_session
  waiting =
      ap
        (λ s.
          re_mo_lon.FrontEnd.SessionTracker.Lookup.session_at (get_user_name user) name
            s.open_sessions)
        entered
      ∙ ground (
        arith,
        session_at-set user name (new_session user name node p) t.open_sessions (get_user_name user)
            name,
        ==_refl (get_user_name user),
        ==_refl name,
      )

  answered :
      (status : ℕ)
      → shown user name status f
        ≡ some (record (new_session user name node p) { status = result_status status })
  answered status =
      let r : SessionResult = record {
        user_name = get_user_name user;
        session_name = name;
        status = status;
      } in
      elim (execute_packet_action_lem (start_streaming_session_result r) f (get_user_name user) name
        k) [
          | inl (nobody, _) ↦
              let (found, named) =
                get_user_by_name_lem (get_user_name user) usr.0 usr.1 f.users k.distinct there in
              absurd (nobody (get_user_name user, usr.0, usr.1, refl, found, named))
          | inr (_, e) ↦ e ∙ ground (arith, waiting, ==_refl (get_user_name user), ==_refl name)
        ]

  -- For a session that the tracker has just entered for a user who is logged in, on a port below 2
  -- ^ 16, and a node whose manager is in its invariant: the node answers the request that the
  -- tracker sends; when the front end runs the answer, its session runs where the node has the
  -- session on the port that was reserved and answers the status 0, and is crashed otherwise, with
  -- a status that is not 0.
  pub session_agrees :
      (launched : Bool) (manager : SessionManager)
      → p < 2 ^ 16
      → Inv manager
      → (status : ℕ) × (manager' : SessionManager) × (handle_request launched
            (received (start_packet user name p))
            manager
          ≡ some
              (Node.start_streaming_session_result (get_user_name user) name status, [], manager'))
        × (((shown user name status f
                ≡ some (record (new_session user name node p) { status = running }))
              × Serves (get_user_name user) name p manager')
            ⊎ ((shown user name status f
                  ≡ some (record (new_session user name node p) { status = crashed }))
                × (status ≢ launch_ok)))
  unfolding handle_request start_new_session
  session_agrees launched manager small v =
      let owner = get_user_name user in
      let same : p % 2 ^ 16 ≡ p = omega (arith, small) in
      let (status, manager', e, h) =
        start_status-Started launched owner (get_address user) name p manager v in
      (
        status,
        manager',
        rw (handle_request, same, start_new_session, e) refl,
        elim (Started-Serves launched owner (get_address user) name p status manager manager' h) [
          | inl (good, serves) ↦ inl (answered status ∙ ground (arith, good), serves)
          | inr bad ↦ inr (answered status ∙ ground (arith, bad), bad)
        ],
      )
