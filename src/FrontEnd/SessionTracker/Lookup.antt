-- ===== src/FrontEnd/SessionTracker/Lookup.antt =====
-- The sessions by the names of their user and of the session, and what each method does to them.
use re_mo_lon.Common.{
  ℕ, ◌≡◌, refl, inl, inr, Option, none, some, ◌&&◌, arith, if◌then◌else◌, Option-cases,
}
use re_mo_lon.Common.Eq.{Text, text_eq, ◌==◌, text_beq_iff}
use re_mo_lon.Common.Assoc
use re_mo_lon.Common.Assoc.{find-assign, find-erase, find-nil}
use re_mo_lon.FrontEnd.User.{User, get_user_name}
use re_mo_lon.FrontEnd.NodeManager.{get_node}
use re_mo_lon.FrontEnd.SessionTracker.{
  Tracker, OpenSessions, SessionInfo, SessionStatus, result_status, closing, sessions_of,
  get_session_info, set_session_info, create_session, finish_session, try_finish_session,
}

unfoldable pub session_at : Text → Text → OpenSessions → Option SessionInfo
session_at user name s = elim (Assoc.find user s) [ none ↦ none | some l ↦ Assoc.find name l ]

pub get_session_info_lem :
    (user : User) (name : Text) (s : OpenSessions)
    → get_session_info user name s ≡ session_at (get_user_name user) name s
unfolding get_session_info session_at
get_session_info_lem user name s = refl

-- A write through the pointer of `getSessionInfo` changes that session and no other.
pub session_at-set :
    (user : User) (name : Text) (info : SessionInfo) (s : OpenSessions) (u n : Text)
    → session_at u n (set_session_info user name info s)
      ≡ (if (get_user_name user == u) && (name == n) then some info else session_at u n s)
unfolding session_at
session_at-set user name info s u n =
    let k : Text = get_user_name user in
    let l = sessions_of k s in
    ground (
      arith,
      find-assign k u (Assoc.assign name info l) s,
      find-assign name n info l,
      text_beq_iff k u,
      find-nil {V = SessionInfo} n,
    )

-- The end of a session takes out the session of that user and name, and changes no other.
pub session_at-finish :
    (user : User) (name : Text) (t : Tracker) (u n : Text)
    → session_at u n (finish_session user name t).1.open_sessions
      ≡ (if (get_user_name user == u) && (name == n) then none else session_at u n t.open_sessions)
unfolding session_at finish_session
session_at-finish user name t u n =
    elim (Option-cases (Assoc.find (get_user_name user) t.open_sessions)) [
      | inl e ↦ ground (arith, text_beq_iff (get_user_name user) u)
      | inr (l, e) ↦ ground (
        arith,
        find-assign (get_user_name user) u (Assoc.erase name l) t.open_sessions,
        find-erase name n l,
        text_beq_iff (get_user_name user) u,
        text_beq_iff name n,
      )
    ]

-- The session of these names with another status, if it is there.
abbrev pub with_status : SessionStatus → Option SessionInfo → Option SessionInfo
with_status status none = none
with_status status (some info) = some (record info { status = status })

module _ (user : User) (name : Text) (t : Tracker) (u n : Text) where
  -- `createSession` sets the status of that session, if it is there, and changes no other.
  pub session_at-create :
      (status : ℕ)
      → session_at u n (create_session user name status t).open_sessions ≡ (
          if (get_user_name user == u) && (name == n)
          then with_status (result_status status) (session_at u n t.open_sessions)
          else session_at u n t.open_sessions)
  unfolding create_session
  session_at-create status = elim (Option-cases (get_session_info user name t.open_sessions)) [
    | inl e ↦ ground (
      arith,
      e,
      get_session_info_lem user name t.open_sessions,
      text_beq_iff (get_user_name user) u,
      text_beq_iff name n,
    )
    | inr (info, e) ↦ ground (
      arith,
      e,
      get_session_info_lem user name t.open_sessions,
      session_at-set user name (record info { status = result_status status }) t.open_sessions u n,
      text_beq_iff (get_user_name user) u,
      text_beq_iff name n,
    )
  ]

  -- A close of a session marks the session of that user and name as closing, or takes it out where
  -- its node is not known, and changes no other session.
  pub session_at-try_finish : session_at u n (try_finish_session user name t).1.open_sessions ≡ (
      if (get_user_name user == u) && (name == n)
      then elim (session_at u n t.open_sessions) as (λ _. Option SessionInfo) [
        | none ↦ none
        | some info ↦ elim (get_node info.node_address t.nodes) as (λ _. Option SessionInfo) [
          | none ↦ none
          | some _ ↦ some (record info { status = closing })
        ]
      ]
      else session_at u n t.open_sessions)
  unfolding try_finish_session
  session_at-try_finish = elim (Option-cases (get_session_info user name t.open_sessions)) [
    | inl e ↦ ground (
      arith,
      e,
      get_session_info_lem user name t.open_sessions,
      text_beq_iff (get_user_name user) u,
      text_beq_iff name n,
    )
    | inr (info, e) ↦
        let info' : SessionInfo = record info { status = closing } in
        let s' : OpenSessions = set_session_info user name info' t.open_sessions in
        ground (
          arith,
          e,
          get_session_info_lem user name t.open_sessions,
          session_at-set user name info' t.open_sessions u n,
          session_at-finish user name (record t { open_sessions = s' }) u n,
          text_beq_iff (get_user_name user) u,
          text_beq_iff name n,
        )
  ]
