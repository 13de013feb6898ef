-- ===== src/FrontEnd/User.antt =====
-- ReMoLON_FrontEnd/include/User.h and ReMoLON_FrontEnd/src/User.cpp.
use re_mo_lon.Common.{ℕ, List, [], none, some}
use re_mo_lon.Common.Eq.{Text, text_eq}
use re_mo_lon.Common.Assoc.{find, assign, erase}

pub record User : Type 0 where
  pub unix_user : Text
  pub unix_pwd : Text
  pub ip_address : Text
  pub user_id : ℕ
  pub group_id : ℕ
  pub active_sessions : List (Text × Text)

-- The constructor leaves the two ids as the memory holds them.
abbrev pub new_user : ℕ → ℕ → User
new_user uid gid = record {
  unix_user = [];
  unix_pwd = [];
  ip_address = [];
  user_id = uid;
  group_id = gid;
  active_sessions = [];
}

abbrev pub set_unix_user : Text → User → User
set_unix_user name u = record u { unix_user = name }

abbrev pub set_pwd : Text → User → User
set_pwd pwd u = record u { unix_pwd = pwd }

abbrev pub set_address : Text → User → User
set_address a u = record u { ip_address = a }

abbrev pub set_unix_ids : ℕ → ℕ → User → User
set_unix_ids uid gid u = record u { user_id = uid; group_id = gid }

abbrev pub get_user_name : User → Text
get_user_name u = u.unix_user

abbrev pub get_address : User → Text
get_address u = u.ip_address

unfoldable pub add_session : Text → Text → User → User
add_session session_name node_address u = record u {
  active_sessions = assign session_name node_address u.active_sessions;
}

unfoldable pub remove_session : Text → User → User
remove_session session_name u = elim (find session_name u.active_sessions) [
  | none ↦ u
  | some _ ↦ record u { active_sessions = erase session_name u.active_sessions }
]
