-- ===== src/Node/Launch/Xinitrc.antt =====
-- From a session of the node to the .xinitrc of its owner.
use re_mo_lon.Common.{
  ℕ, ◌+◌, ◌<◌, ◌≡◌, refl, sym, ap, ◌∙◌, List, [], ◌∷◌, ◌++◌, Option, some, nat_beq, length,
  length-append, lt→ltb, if◌then◌else◌, arith,
}
use re_mo_lon.Common.Eq.{Text, c_str, codes}
use re_mo_lon.Common.Decimal.{to_string, to_string_lem, AllDigits}
use re_mo_lon.Node.SessionManager.{StreamingSession}
use re_mo_lon.Node.Setup.{Node}
use re_mo_lon.Node.Launch.{
  Homes, Exec, last, xinitrc_bin, print_to_buffer, arguments, launch_child, writes, xinitrc,
  writer_main,
}

c_str-AllDigits : (s : Text) → AllDigits s → c_str s ≡ s
c_str-AllDigits [] h = refl
c_str-AllDigits (c ∷ s) (low, high, h) = ground (arith, c_str-AllDigits s h)

c_str-to_string : (n : ℕ) → c_str (to_string n) ≡ to_string n
c_str-to_string n =
    let (c, s, e, h, _) = to_string_lem n in ap c_str e ∙ c_str-AllDigits (c ∷ s) h ∙ sym e

length-c_str : (s : Text) → length (c_str s) < length s + 1
length-c_str [] = omega arith
length-c_str (c ∷ s) = ground (arith, length-c_str s)

last-some : (c : ℕ) (s : Text) → (d : ℕ) × (last (c ∷ s) ≡ some d)
last-some c [] = (c, refl)
last-some c (d ∷ s) = last-some d s

-- The program that is started.
abbrev pub program : Text → ℕ → Text
program dir c = (dir ++ (if nat_beq c 47 then [] else 47 ∷ [])) ++ codes "xinitrc_writer"

fits :
    (before s behind : Text)
    → length before + length s + length behind < 0xffff
    → print_to_buffer before s behind ≡ some (before ++ c_str s ++ behind)
unfolding print_to_buffer
fits before s behind h =
    let short : length (before ++ c_str s ++ behind) < 0xffff = omega (
      arith,
      h,
      length-c_str s,
      length-append (before ++ c_str s) behind,
      length-append before (c_str s),
    ) in
    rw (lt→ltb _ _ short) refl

-- For a sudo that runs the command behind `-u` and the user with what follows it, a node whose
-- directory of the writer has a name, and an owner that the system knows with a home directory
-- short enough for the buffer: the launch of a session starts the writer, which writes the
-- .xinitrc of that home directory with the node's directory of remotoo, the session's name, owner
-- and address, each up to a zero byte, and its three ports in base 10.
pub launch_child-Writes :
    (homes : Homes) (sudo : List Text → Option (List Text)) (n : Node) (s : StreamingSession)
    (home : Text) (c : ℕ) (dir : Text)
    → ((user command : Text) (args : List Text)
        → sudo (codes "sudo" ∷ codes "-u" ∷ user ∷ command ∷ args) ≡ some (command ∷ args))
    → n.remolon_xinitrc_dir ≡ c ∷ dir
    → homes (c_str s.session_owner) ≡ some home
    → length home + 9 < 0xffff
    → (x : Exec) × (argv : List Text) × (launch_child homes n s ≡ some x)
      × (sudo x.argv ≡ some argv)
      × (writer_main homes argv
          ≡ writes (c_str home ++ codes "/.xinitrc") (
              xinitrc
                (c_str n.remotoo_bin_dir)
                (c_str s.session_name)
                (c_str s.session_owner)
                (c_str s.session_owner_address)
                (to_string s.session_port)
                (to_string s.session_sock_port)
                (to_string s.session_rtc_port)))
unfolding launch_child writer_main xinitrc_bin
launch_child-Writes homes sudo n s home c dir runs named known short =
    let (d, e) = last-some c dir in
    let ends : last n.remolon_xinitrc_dir ≡ some d = ap last named ∙ e in
    let bin : Text = program n.remolon_xinitrc_dir d in
    let x : Exec = record {
      path = codes "/usr/bin/sudo";
      argv = arguments bin n s;
      env = c_str (codes "HOME=" ++ c_str home ++ []) ∷ [];
    } in
    (
      x,
      _,
      rw
          (
            known,
            launch_child,
            fits (codes "HOME=") home [] (omega (arith, short)),
            xinitrc_bin,
            ends,
          )
          refl,
      runs (c_str s.session_owner) (c_str bin) _,
      rw
          (
            known,
            writer_main,
            fits [] home (codes "/.xinitrc") (omega (arith, short)),
            c_str-to_string s.session_port,
            c_str-to_string s.session_sock_port,
            c_str-to_string s.session_rtc_port,
          )
          refl,
    )
