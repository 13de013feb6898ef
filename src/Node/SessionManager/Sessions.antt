-- ===== src/Node/SessionManager/Sessions.antt =====
-- The sessions of a node's session manager by the names of their owner and of the session.
use re_mo_lon.Common.{◌≡◌, List, Option, none, some, ◌&&◌, arith, if◌then◌else◌}
use re_mo_lon.Common.Eq.{Text, text_eq, ◌==◌, text_beq_iff}
use re_mo_lon.Common.Assoc.{find, assign, erase, find-assign, find-erase, find-nil}
use re_mo_lon.Node.SessionManager.{StreamingSession, SessionLists, list_of, with_list, put_session}

unfoldable pub session_at : Text → Text → SessionLists → Option StreamingSession
session_at owner name lists = elim (find owner lists) [ none ↦ none | some l ↦ find name l ]

pub find-list_of :
    (owner name : Text) (lists : SessionLists)
    → find name (list_of owner lists) ≡ session_at owner name lists
unfolding session_at
find-list_of owner name lists = ground (arith, find-nil {V = StreamingSession} name)

pub session_at-assign :
    (owner : Text) (l : List (Text × StreamingSession)) (lists : SessionLists) (u n : Text)
    → session_at u n (assign owner l lists)
      ≡ (if owner == u then find n l else session_at u n lists)
unfolding session_at
session_at-assign owner l lists u n = ground (arith, find-assign owner u l lists)

pub session_at-with_list :
    (owner : Text) (lists : SessionLists) (u n : Text)
    → session_at u n (with_list owner lists) ≡ session_at u n lists
session_at-with_list owner lists u n = ground (
  arith,
  session_at-assign owner (list_of owner lists) lists u n,
  find-list_of owner n lists,
  text_beq_iff owner u,
)

pub session_at-put :
    (s : StreamingSession) (owner name : Text) (lists : SessionLists) (u n : Text)
    → session_at u n (put_session s owner name lists)
      ≡ (if (owner == u) && (name == n) then some s else session_at u n lists)
session_at-put s owner name lists u n = ground (
  arith,
  session_at-assign owner (assign name s (list_of owner lists)) lists u n,
  find-list_of owner n lists,
  find-assign name n s (list_of owner lists),
  text_beq_iff owner u,
)

pub session_at-erase :
    (owner name : Text) (lists : SessionLists) (u n : Text)
    → session_at u n (assign owner (erase name (list_of owner lists)) lists)
      ≡ (if (owner == u) && (name == n) then none else session_at u n lists)
session_at-erase owner name lists u n = ground (
  arith,
  session_at-assign owner (erase name (list_of owner lists)) lists u n,
  find-list_of owner n lists,
  find-erase name n (list_of owner lists),
  text_beq_iff owner u,
)
