-- ===== src/FrontEnd/XmlBuilder.antt =====
-- ReMoLON_FrontEnd/src/XmlBuilder.cpp: the list of a user's sessions, as the web client reads it.
use re_mo_lon.Common.{ℕ, [], ◌∷◌, ◌++◌}
use re_mo_lon.Common.Eq.{Text, codes}
use re_mo_lon.Common.Decimal.{to_string}
use re_mo_lon.FrontEnd.User.{User}
use re_mo_lon.FrontEnd.SessionTracker.{
  SessionStatus, uninitialized, creating, running, closing, crashed, SessionInfo, SessionList,
  OpenSessions, get_user_sessions,
}

-- The values of the enumeration `SessionStatus`.
abbrev pub status_code : SessionStatus → ℕ
status_code uninitialized = 0
status_code creating = 1
status_code running = 2
status_code closing = 3
status_code crashed = 4

-- The body of the loop.
unfoldable pub session_xml : Text → SessionInfo → Text
session_xml name info =
    codes "<session>"
    ++ codes "<name>"
    ++ name
    ++ codes "</name>"
    ++ codes "<url>http://"
    ++ info.node_public_address
    ++ codes ":"
    ++ to_string info.node_port
    ++ codes "/index.html</url>"
    ++ codes "<status>"
    ++ to_string (status_code info.status)
    ++ codes "</status>"
    ++ codes "</session>"

abbrev pub sessions_xml : SessionList → Text
sessions_xml [] = []
sessions_xml ((name, info) ∷ list) = session_xml name info ++ sessions_xml list

-- The text, and the sessions after `getUserSessions`.
unfoldable pub xml_build_session_list : User → OpenSessions → Text × OpenSessions
xml_build_session_list usr s =
    let (list, s') = get_user_sessions usr s in
    (
      codes "<?xml version=\"1.0\" encoding=\"UTF-8\"?><sessionlist>"
          ++ sessions_xml list
          ++ codes "</sessionlist>",
      s',
    )
