-- ===== src/Node/Launch.antt =====
-- `tryLaunchSession` of ReMoLON/src/StreamingSession.cpp, and ReMoLON_xinitrc_writter/src/main.cpp,
-- the program that it starts through sudo: the user's .xinitrc. `getpwnam` is a parameter, of which
-- the home directory is read; a null pointer that is followed, an index outside a string and a write
-- past a buffer are a fault.
pub mod Xinitrc
use re_mo_lon.Common.{
  ℕ, ◌+◌, List, [], ◌∷◌, ◌++◌, Option, none, some, nat_beq, ltb, length, if◌then◌else◌,
}
use re_mo_lon.Common.Eq.{Text, c_str, codes}
use re_mo_lon.Common.Decimal.{to_string}
use re_mo_lon.Node.SessionManager.{StreamingSession}
use re_mo_lon.Node.Setup.{Node, get_remotoo_binary_dir, get_remolon_xinitrc_binary_dir}

-- The home directory of a user that the system knows.
abbrev pub Homes : Type 0
Homes = Text → Option Text

-- What `execle` is given.
pub record Exec : Type 0 where
  pub path : Text
  pub argv : List Text
  pub env : List Text

abbrev pub last : Text → Option ℕ
last [] = none
last (c ∷ []) = some c
last (c ∷ d ∷ s) = last (d ∷ s)

-- The directory with a slash, which is 47, behind it, and the name of the program.
unfoldable pub xinitrc_bin : Text → Option Text
xinitrc_bin dir = elim (last dir) [
  | none ↦ none
  | some c ↦ some ((dir ++ (if nat_beq c 47 then [] else 47 ∷ [])) ++ codes "xinitrc_writer")
]

-- `sprintf` of a prefix, a text and a suffix into a buffer of 0xffff bytes.
unfoldable pub print_to_buffer : Text → Text → Text → Option Text
print_to_buffer before s behind =
    let text : Text = before ++ c_str s ++ behind in
    if ltb (length text) 0xffff then some text else none

abbrev pub arguments : Text → Node → StreamingSession → List Text
arguments bin n s =
    codes "sudo"
    ∷ codes "-u"
    ∷ c_str s.session_owner
    ∷ c_str bin
    ∷ c_str (get_remotoo_binary_dir n)
    ∷ c_str s.session_name
    ∷ c_str s.session_owner
    ∷ c_str s.session_owner_address
    ∷ c_str (to_string s.session_port)
    ∷ c_str (to_string s.session_sock_port)
    ∷ c_str (to_string s.session_rtc_port)
    ∷ []

-- The child of the fork; none is a fault.
unfoldable pub launch_child : Homes → Node → StreamingSession → Option Exec
launch_child homes n s = elim (homes (c_str s.session_owner)) [
  | none ↦ none
  | some home ↦ elim (print_to_buffer (codes "HOME=") home []) [
    | none ↦ none
    | some buf ↦ elim (xinitrc_bin (get_remolon_xinitrc_binary_dir n)) [
      | none ↦ none
      | some bin ↦
          some (record {
            path = codes "/usr/bin/sudo";
            argv = arguments bin n s;
            env = c_str buf ∷ [];
          })
    ]
  ]
]

-- How the writer ends: with the usage and -1, with a file written and the answer of `xinit`, or with
-- a fault.
pub data Ending : Type 0 where
  usage : Ending
  writes : Text → Text → Ending
  fault : Ending

-- The text of the .xinitrc.
unfoldable pub xinitrc : Text → Text → Text → Text → Text → Text → Text → Text
xinitrc remotoo_dir session user user_ip web_port sock_port rtc_port =
    codes "#!/usr/bin/env bash \n"
    ++ codes "export XSESSION_PID=\"$$\"\n"
    ++ codes "gnome-terminal &\n"
    ++ codes "cd "
    ++ remotoo_dir
    ++ codes "\n"
    ++ codes "./remotoo "
    ++ session
    ++ codes " "
    ++ user
    ++ codes " "
    ++ user_ip
    ++ codes " "
    ++ web_port
    ++ codes " "
    ++ sock_port
    ++ codes " "
    ++ rtc_port
    ++ codes " $XSESSION_PID &\n"
    ++ codes "exec gnome-session\n"

-- The main function of the writer. Arguments after the eighth are not read.
unfoldable pub writer_main : Homes → List Text → Ending
writer_main homes (program ∷ remotoo_dir ∷ session ∷ user ∷ user_ip ∷ web ∷ sock ∷ rtc ∷ more) =
    elim (homes user) [
      | none ↦ fault
      | some home ↦ elim (print_to_buffer [] home (codes "/.xinitrc")) [
        | none ↦ fault
        | some path ↦ writes path (xinitrc remotoo_dir session user user_ip web sock rtc)
      ]
    ]
writer_main homes _ = usage
