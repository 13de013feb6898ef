-- ===== src/FrontEnd/Answers/Effects.antt =====
-- What an answer of a node does to each session.
use re_mo_lon.Common.{
  ◌≡◌, refl, arith, some, ap, ◌∙◌, ◌⊎◌, inl, inr, Option, none, if◌then◌else◌, ◌&&◌, Option-cases,
}
use re_mo_lon.Common.Eq.{Text, text_eq, ◌==◌}
use re_mo_lon.Common.Assoc
use re_mo_lon.FrontEnd.User.{User}
use re_mo_lon.FrontEnd.Packets.{
  ClientPacket, node_info, start_streaming_session_result, close_session_result,
}
use re_mo_lon.FrontEnd.UserManager.{Users, get_user_by_name}
use re_mo_lon.FrontEnd.UserManager.LogIn.{Keyed, get_user_by_name_lem, get_user_by_name-none}
use re_mo_lon.FrontEnd.SessionTracker.{SessionInfo, result_status}
use re_mo_lon.FrontEnd.SessionTracker.Lookup.{
  session_at, with_status, session_at-create, session_at-finish,
}
use re_mo_lon.FrontEnd.HttpActions.{Front}
use re_mo_lon.FrontEnd.Answers.{execute_start_result, execute_close_result, execute_packet_action}

-- The session of these names after the packet, from what it was.
abbrev pub updated_session : ClientPacket → Text → Text → Option SessionInfo → Option SessionInfo
updated_session node_info u n info = info
updated_session (start_streaming_session_result p) u n info =
    if (p.user_name == u) && (p.session_name == n)
    then with_status (result_status p.status) info
    else info
updated_session (close_session_result p) u n info =
    if (p.user_name == u) && (p.session_name == n) then none else info

-- The user that a packet names.
abbrev pub named_user : ClientPacket → Option Text
named_user node_info = none
named_user (start_streaming_session_result p) = some p.user_name
named_user (close_session_result p) = some p.user_name

-- A packet names a user who is logged in.
abbrev pub NamesLoggedIn : ClientPacket → Users → Type 0
NamesLoggedIn packet users =
    (name ip : Text) × (usr : User) × (named_user packet ≡ some name)
    × (Assoc.find ip users ≡ some usr)
    × (usr.unix_user ≡ name)

abbrev pub session_of : Text → Text → Front → Option SessionInfo
session_of u n f = session_at u n f.tracker.open_sessions

-- Where no address stands twice among the users, and the user of a packet is logged in: the answer
-- of a node that a session has started makes the session of that user and name run, or crashed
-- where the status is not 0; the answer that it is closed takes it out; no other session changes.
-- Where the user is not logged in, or the packet names none, it changes nothing at all.
pub execute_packet_action_lem :
    (packet : ClientPacket) (f : Front) (u n : Text)
    → Keyed f.users
    → ((¬ NamesLoggedIn packet f.users) × (execute_packet_action packet f ≡ f))
      ⊎ (NamesLoggedIn packet f.users
          × (session_of u n (execute_packet_action packet f)
              ≡ updated_session packet u n (session_of u n f)))
unfolding execute_packet_action execute_start_result execute_close_result
execute_packet_action_lem node_info f u n k = inl (λ (name, ip, usr, e, _, _). cc, refl)
execute_packet_action_lem (start_streaming_session_result p) f u n k =
    elim (Option-cases (get_user_by_name p.user_name f.users)) [
      | inl e ↦ inl (
        λ (name, ip, usr, s, there, same).
            get_user_by_name-none p.user_name ip usr f.users e there (ground (arith, s, same)),
        rw (execute_start_result, e) refl,
      )
      | inr ((ip, usr), e) ↦
          let (there, named) = get_user_by_name_lem p.user_name ip usr f.users k.distinct e in
          inr (
            (p.user_name, ip, usr, refl, there, named),
            rw (execute_start_result, e)
                (session_at-create usr p.session_name f.tracker u n p.status
                  ∙ ap
                      (λ a.
                        if (a == u) && (p.session_name == n)
                        then with_status (result_status p.status) (session_of u n f)
                        else session_of u n f)
                      named),
          )
    ]
execute_packet_action_lem (close_session_result p) f u n k =
    elim (Option-cases (get_user_by_name p.user_name f.users)) [
      | inl e ↦ inl (
        λ (name, ip, usr, s, there, same).
            get_user_by_name-none p.user_name ip usr f.users e there (ground (arith, s, same)),
        rw (execute_close_result, e) refl,
      )
      | inr ((ip, usr), e) ↦
          let (there, named) = get_user_by_name_lem p.user_name ip usr f.users k.distinct e in
          inr (
            (p.user_name, ip, usr, refl, there, named),
            rw (execute_close_result, e)
                (session_at-finish usr p.session_name f.tracker u n
                  ∙ ap (λ a. if (a == u) && (p.session_name == n) then none else session_of u n f)
                      named),
          )
    ]
