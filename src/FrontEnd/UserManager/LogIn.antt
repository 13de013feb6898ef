-- ===== src/FrontEnd/UserManager/LogIn.antt =====
-- What a log in and a log out do to the users, and who stands where.
use re_mo_lon.Common.{
  ◌≡◌, refl, ◌⊎◌, inl, inr, [], ◌∷◌, none, some, true, false, if◌then◌else◌, arith, Bool-cases,
  Option-cases, nat_beq, nat_beq_iff,
}
use re_mo_lon.Common.Eq.{Text, codes, c_str, text_eq, text_beq_iff, ◌==◌, ==_refl}
use re_mo_lon.Common.Assoc
use re_mo_lon.Common.Assoc.{
  find-assign, find-erase, Distinct, Absent, find-Absent, assign-Distinct, erase-Distinct,
}
use re_mo_lon.FrontEnd.User.{User}
use re_mo_lon.FrontEnd.UserManager.{
  System, Users, authenticate, user_at, logged, service_name, try_auth_user, get_user_by_name,
  log_out_user,
}

-- No address stands twice, and every user has the address where it stands.
pub record Keyed (users : Users) : Type 0 where
  pub distinct : Distinct users
  pub addressed : (ip : Text) (u : User) → Assoc.find ip users ≡ some u → u.ip_address ≡ ip

-- PAM starts for the service and the name, and then accepts the password; both as the C strings.
abbrev pub Accepts : System → Text → Text → Type 0
Accepts sys user pwd =
    (sys.pam_start (codes "system-auth") (c_str user) ≡ sys.pam_success)
    × (sys.pam_authenticate (codes "system-auth") (c_str user) (c_str pwd) ≡ sys.pam_success)

authenticate-cases :
    (sys : System) (user pwd : Text)
    → ((authenticate sys service_name (c_str user) (c_str pwd) ≡ true) × Accepts sys user pwd)
      ⊎ ((authenticate sys service_name (c_str user) (c_str pwd) ≡ false)
          × (¬ Accepts sys user pwd))
unfolding authenticate
authenticate-cases sys user pwd =
    let started = sys.pam_start (codes "system-auth") (c_str user) in
    let answer = sys.pam_authenticate (codes "system-auth") (c_str user) (c_str pwd) in
    elim (Bool-cases (nat_beq started sys.pam_success)) [
      | inr refused ↦
          inr (rw refused refl, λ h. ground (arith, h.0, nat_beq_iff started sys.pam_success))
      | inl starts ↦ elim (Bool-cases (nat_beq answer sys.pam_success)) [
        | inl agrees ↦ inl (
          rw (starts, agrees) refl,
          (
            (nat_beq_iff started sys.pam_success).0 starts,
            (nat_beq_iff answer sys.pam_success).0 agrees,
          ),
        )
        | inr refused ↦ inr (
          rw (starts, refused) refl,
          λ h. ground (arith, h.1, nat_beq_iff answer sys.pam_success),
        )
      ]
    ]

-- A log in is refused, and nothing changes, where PAM does not start for the name or refuses the
-- password, or the system does not know the user. Otherwise PAM accepts both, and the user is
-- logged in from that address, with that name, password and address, the ids that the system
-- gives, and the sessions of whoever was logged in there before; no other address changes; and a
-- log out from that address then finds the user, and leaves nobody there and all other addresses
-- as they were.
pub try_auth_user_lem :
    (sys : System) (ip user pwd : Text) (users : Users) (j : Text)
    → ((try_auth_user sys ip user pwd users ≡ (false, users))
        × ((¬ Accepts sys user pwd) ⊎ (sys.getpwnam (c_str user) ≡ none)))
      ⊎ (Accepts sys user pwd
          × (u : User) × (users' : Users) × (try_auth_user sys ip user pwd users ≡ (true, users'))
          × (sys.getpwnam (c_str user) ≡ some (u.user_id, u.group_id))
          × (u.unix_user ≡ user)
          × (u.unix_pwd ≡ pwd)
          × (u.ip_address ≡ ip)
          × (u.active_sessions ≡ (user_at ip users).active_sessions)
          × (Assoc.find j users' ≡ (if ip == j then some u else Assoc.find j users))
          × ((log_out_user ip users').0 ≡ true)
          × (Assoc.find j (log_out_user ip users').1
              ≡ (if ip == j then none else Assoc.find j users)))
unfolding try_auth_user log_out_user
try_auth_user_lem sys ip user pwd users j = elim (authenticate-cases sys user pwd) [
  | inr (refuses, denied) ↦ inl (rw refuses, inl denied)
  | inl (admits, accepts) ↦ elim (Option-cases (sys.getpwnam (c_str user))) [
    | inl unknown ↦ inl (rw (admits, try_auth_user, unknown), inr unknown)
    | inr ((uid, gid), known) ↦
        let u : User = logged ip user pwd (uid, gid) (user_at ip users) in
        let users' = Assoc.assign ip u users in
        let here : Assoc.find ip users' ≡ some u =
          ground (arith, find-assign ip ip u users, ==_refl ip) in
        inr (
          accepts,
          u,
          users',
          rw (admits, try_auth_user, known),
          known,
          refl,
          refl,
          refl,
          refl,
          find-assign ip j u users,
          rw (log_out_user, here) refl,
          rw (log_out_user, here)
              (ground (arith, find-erase ip j users', find-assign ip j u users)),
        )
  ]
]

pub assign-Keyed :
    (ip : Text) (u : User) (users : Users)
    → u.ip_address ≡ ip
    → Keyed users
    → Keyed (Assoc.assign ip u users)
assign-Keyed ip u users e h = record {
  distinct = assign-Distinct ip u users h.distinct;
  addressed = λ j v f. ground (arith, find-assign ip j u users, text_beq_iff ip j, h.addressed j v);
}

pub try_auth_user-Keyed :
    (sys : System) (ip user pwd : Text) (users : Users)
    → Keyed users
    → Keyed (try_auth_user sys ip user pwd users).1
unfolding try_auth_user
try_auth_user-Keyed sys ip user pwd users h =
    elim (Bool-cases (authenticate sys service_name (c_str user) (c_str pwd))) [
      | inr refuses ↦ rw refuses h
      | inl admits ↦ elim (Option-cases (sys.getpwnam (c_str user))) [
        | inl unknown ↦ rw (admits, try_auth_user, unknown) h
        | inr (ids, known) ↦
            rw (admits, try_auth_user, known)
              (assign-Keyed ip (logged ip user pwd ids (user_at ip users)) users refl h)
      ]
    ]

pub log_out_user-Keyed : (ip : Text) (users : Users) → Keyed users → Keyed (log_out_user ip users).1
unfolding log_out_user
log_out_user-Keyed ip users h = elim (Option-cases (Assoc.find ip users)) [
  | inl e ↦ rw (log_out_user, e) h
  | inr (_, e) ↦
      rw (log_out_user, e)
        (record {
          distinct = erase-Distinct ip users h.distinct;
          addressed =
              λ j v f. ground (arith, find-erase ip j users, text_beq_iff ip j, h.addressed j v);
        })
]

-- A user that is found by name is the one at the address that is found with it.
pub get_user_by_name_lem :
    (name ip : Text) (u : User) (users : Users)
    → Distinct users
    → get_user_by_name name users ≡ some (ip, u)
    → (Assoc.find ip users ≡ some u) × (u.unix_user ≡ name)
unfolding get_user_by_name Assoc.find
get_user_by_name_lem name ip u [] d e = cc
get_user_by_name_lem name ip u ((j, v) ∷ users) (away, d) e =
    elim (Bool-cases (v.unix_user == name)) [
      | inl this ↦ ground (arith, ==_refl j, text_beq_iff v.unix_user name)
      | inr other ↦
          let e' : get_user_by_name name users ≡ some (ip, u) = ground (arith, other) in
          let (there, same) = get_user_by_name_lem name ip u users d e' in
          (ground (arith, there, text_beq_iff j ip, find-Absent j users away), same)
    ]

-- A name that is not found is that of nobody at any address.
pub get_user_by_name-none :
    (name ip : Text) (u : User) (users : Users)
    → get_user_by_name name users ≡ none
    → Assoc.find ip users ≡ some u
    → u.unix_user ≡ name
    → ⊥
unfolding get_user_by_name Assoc.find
get_user_by_name-none name ip u [] e there same = cc
get_user_by_name-none name ip u ((j, v) ∷ users) e there same =
    elim (Bool-cases (v.unix_user == name)) [
      | inl this ↦ ground (arith, this)
      | inr other ↦
          let e' : get_user_by_name name users ≡ none = ground (arith, other) in
          elim (Bool-cases (j == ip)) [
            | inl here ↦ ground (arith, here, text_beq_iff v.unix_user name)
            | inr away ↦ get_user_by_name-none name ip u users e' (ground (arith, away)) same
          ]
    ]
