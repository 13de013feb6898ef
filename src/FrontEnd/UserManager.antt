-- ===== src/FrontEnd/UserManager.antt =====
-- ReMoLON_FrontEnd/include/UserManager.h and ReMoLON_FrontEnd/src/UserManager.cpp: who is logged in
-- from which address. The calls of PAM and of the user database are a parameter. Each method is one
-- step; the two that look a user up take no lock in the source.
pub mod LogIn
use re_mo_lon.Common.{
  ℕ, List, [], ◌∷◌, Option, none, some, Bool, true, false, nat_beq, if◌then◌else◌,
}
use re_mo_lon.Common.Eq.{Text, c_str, text_eq, codes, ◌==◌}
use re_mo_lon.Common.Assoc
use re_mo_lon.FrontEnd.User.{
  User, new_user, set_unix_user, set_pwd, set_address, set_unix_ids, get_user_name,
}

-- The system's answers: `pam_start` of a service and a user, `pam_authenticate` of that handle with
-- a password, and `getpwnam`, which gives the two ids of a user if it knows the user.
pub record System : Type 0 where
  pub pam_success : ℕ
  pub pam_start : Text → Text → ℕ
  pub pam_authenticate : Text → Text → Text → ℕ
  pub getpwnam : Text → Option (ℕ × ℕ)

-- `_loggedInUsers`, by address.
abbrev pub Users : Type 0
Users = List (Text × User)

unfoldable pub is_user_logged_in : Text → Users → Bool
is_user_logged_in ip_address users = elim (Assoc.find ip_address users) [
  | none ↦ false
  | some _ ↦ true
]

-- `null_conv` answers every question with the password.
unfoldable pub authenticate : System → Text → Text → Text → Bool
authenticate sys service user pass =
    let retval = sys.pam_start service user in
    if nat_beq retval sys.pam_success
    then nat_beq (sys.pam_authenticate service user pass) sys.pam_success
    else false

-- `_loggedInUsers [ ipAddress_ ]`. The ids of a new user are set before they are read.
abbrev pub user_at : Text → Users → User
user_at ip_address users = elim (Assoc.find ip_address users) [ none ↦ new_user 0 0 | some u ↦ u ]

-- The four setters.
abbrev pub logged : Text → Text → Text → ℕ × ℕ → User → User
logged ip_address user pwd (uid, gid) u =
    set_unix_ids uid gid (set_address ip_address (set_pwd pwd (set_unix_user user u)))

abbrev pub service_name : Text
service_name = codes "system-auth"

unfoldable pub try_auth_user : System → Text → Text → Text → Users → Bool × Users
try_auth_user sys ip_address user pwd users =
    if authenticate sys service_name (c_str user) (c_str pwd)
    then elim (sys.getpwnam (c_str user)) [
      | none ↦ (false, users)
      | some ids ↦ (
        true,
        Assoc.assign ip_address (logged ip_address user pwd ids (user_at ip_address users)) users,
      )
    ]
    else (false, users)

abbrev pub get_user : Text → Users → Option User
get_user ip_address users = Assoc.find ip_address users

-- The first user of that name, with the address where it stands.
unfoldable pub get_user_by_name : Text → Users → Option (Text × User)
get_user_by_name user_name [] = none
get_user_by_name user_name ((ip, u) ∷ users) =
    let later = get_user_by_name user_name users in
    if get_user_name u == user_name then some (ip, u) else later

unfoldable pub log_out_user : Text → Users → Bool × Users
log_out_user ip_address users = elim (Assoc.find ip_address users) [
  | none ↦ (false, users)
  | some _ ↦ (true, Assoc.erase ip_address users)
]
