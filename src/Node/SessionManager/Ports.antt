-- ===== src/Node/SessionManager/Ports.antt =====
-- One of the three port tables of a session manager against the sessions that hold its ports.
use re_mo_lon.Common.{
  ℕ, ◌≡◌, refl, sym, ap, ◌∙◌, ◌⊎◌, inl, inr, [], ◌∷◌, some, true, false, arith, nat_beq_iff,
}
use re_mo_lon.Common.Eq.{Text, nat_eq, text_eq, ◌==◌, ==_refl, text_beq_iff}
use re_mo_lon.Common.Assoc.{find, assign, erase, find-assign, find-Absent, Distinct}
use re_mo_lon.Node.SessionManager.{
  StreamingSession, SessionLists, PortTable, list_of, put_session, find_available_port,
}
use re_mo_lon.Node.SessionManager.Sessions.{session_at, session_at-put, session_at-erase}

-- `findAvailablePort` takes a port that was free, and fails only where it leaves the table as it is.
pub find_available_port-cases :
    (source : PortTable)
    → Distinct source
    → (find_available_port source ≡ (0, source))
      ⊎ ((port : ℕ) × (find_available_port source ≡ (port, assign port true source))
          × (find port source ≡ some false))
unfolding find_available_port find assign
find_available_port-cases [] h = inl refl
find_available_port-cases ((p, false) ∷ source) h =
    inr (p, ground (arith, ==_refl p), ground (arith, ==_refl p))
find_available_port-cases ((p, true) ∷ source) h = elim (find_available_port-cases source h.1) [
  | inl e ↦ inl (rw e)
  | inr (q, e, free) ↦
      let other : (p == q) ≡ false =
        ground (arith, free, find-Absent p source h.0, nat_beq_iff p q) in
      inr (q, rw (e, other), rw other free)
]

-- Each session's port is in use in the table, and sessions with one port are one session.
pub record Taken (port : StreamingSession → ℕ) (table : PortTable) (lists : SessionLists)
    : Type 0 where
  pub held :
      (o n : Text) (s : StreamingSession)
      → session_at o n lists ≡ some s
      → find (port s) table ≡ some true
  pub alone :
      (o n o' n' : Text) (s s' : StreamingSession)
      → session_at o n lists ≡ some s
      → session_at o' n' lists ≡ some s'
      → port s ≡ port s'
      → (o ≡ o') × (n ≡ n')

module _ (port : StreamingSession → ℕ) (table : PortTable) (lists : SessionLists)
    (t : Taken port table lists) where
  -- More ports in use.
  pub mark-Taken : (p : ℕ) → Taken port (assign p true table) lists
  mark-Taken p = record {
    held = λ o n s e. ground (arith, find-assign p (port s) true table, t.held o n s e);
    alone = t.alone;
  }

  -- The same sessions in other lists.
  pub same-Taken :
      (lists' : SessionLists)
      → ((o n : Text) → session_at o n lists' ≡ session_at o n lists)
      → Taken port table lists'
  same-Taken lists' e = record {
    held = λ o n s f. t.held o n s (sym (e o n) ∙ f);
    alone = λ o n o' n' s s' f f'. t.alone o n o' n' s s' (sym (e o n) ∙ f) (sym (e o' n') ∙ f');
  }

  -- A new session on a free port.
  module _ (s : StreamingSession) (owner name : Text)
      (free : find (port s) table ≡ some false) where
    enters-cases :
        (o n : Text) (k : StreamingSession)
        → session_at o n (put_session s owner name lists) ≡ some k
        → ((owner ≡ o) × (name ≡ n) × (s ≡ k)) ⊎ (session_at o n lists ≡ some k)
    enters-cases o n k e =
        ground
          (arith, session_at-put s owner name lists o n, text_beq_iff owner o, text_beq_iff name n)

    pub enter-Taken : Taken port (assign (port s) true table) (put_session s owner name lists)
    enter-Taken = record {
      held = λ o n k e. elim (enters-cases o n k e) [
        | inl (_, _, same) ↦ ground (
          arith,
          find-assign (port s) (port k) true table,
          nat_beq_iff (port s) (port k),
          ap port same,
        )
        | inr old ↦ ground (arith, find-assign (port s) (port k) true table, t.held o n k old)
      ];
      alone = λ o n o' n' k k' e e' p. elim (enters-cases o n k e) [
        | inl (eo, en, same) ↦ elim (enters-cases o' n' k' e') [
          | inl (eo', en', same') ↦ (sym eo ∙ eo', sym en ∙ en')
          | inr old' ↦ ground (arith, t.held o' n' k' old', ap port same, p, free)
        ]
        | inr old ↦ elim (enters-cases o' n' k' e') [
          | inl (eo', en', same') ↦ ground (arith, t.held o n k old, ap port same', p, free)
          | inr old' ↦ t.alone o n o' n' k k' old old' p
        ]
      ];
    }

  -- Another value of a session, on the same port.
  module _ (s s' : StreamingSession) (owner name : Text)
      (found : session_at owner name lists ≡ some s) (same : port s' ≡ port s) where
    before :
        (o n : Text) (k : StreamingSession)
        → session_at o n (put_session s' owner name lists) ≡ some k
        → (j : StreamingSession) × (session_at o n lists ≡ some j) × (port j ≡ port k)
    before o n k e = elim (enters o n k e) [
      | inl (eo, en, eq) ↦ (s, ground (arith, found, eo, en), sym same ∙ ap port eq)
      | inr old ↦ (k, old, refl)
    ]
      where
        enters :
            (o n : Text) (k : StreamingSession)
            → session_at o n (put_session s' owner name lists) ≡ some k
            → ((owner ≡ o) × (name ≡ n) × (s' ≡ k)) ⊎ (session_at o n lists ≡ some k)
        enters o n k e = ground (
          arith,
          session_at-put s' owner name lists o n,
          text_beq_iff owner o,
          text_beq_iff name n,
        )

    pub update-Taken : Taken port table (put_session s' owner name lists)
    update-Taken = record {
      held = λ o n k e.
          let (j, old, p) = before o n k e in ap (λ q. find q table) (sym p) ∙ t.held o n j old;
      alone = λ o n o' n' k k' e e' p.
          let (j, old, q) = before o n k e in
          let (j', old', q') = before o' n' k' e' in
          t.alone o n o' n' j j' old old' (q ∙ (p ∙ sym q'));
    }

  -- A session gone, and its port free.
  module _ (s : StreamingSession) (owner name : Text)
      (found : session_at owner name lists ≡ some s) where
    stays :
        (o n : Text) (k : StreamingSession)
        → session_at o n (assign owner (erase name (list_of owner lists)) lists) ≡ some k
        → (session_at o n lists ≡ some k) × ¬ ((owner ≡ o) × (name ≡ n))
    stays o n k e = (
      ground (arith, session_at-erase owner name lists o n),
      λ (eo, en).
          ground (
            arith,
            session_at-erase owner name lists o n,
            text_beq_iff owner o,
            text_beq_iff name n,
          ),
    )

    pub clear-Taken :
        Taken port
          (assign (port s) false table)
          (assign owner (erase name (list_of owner lists)) lists)
    clear-Taken = record {
      held = λ o n k e.
          let (old, other) = stays o n k e in
          let apart : ¬ (port s ≡ port k) = λ p. other (t.alone owner name o n s k found old p) in
          ground (
            arith,
            find-assign (port s) (port k) false table,
            nat_beq_iff (port s) (port k),
            apart,
            t.held o n k old,
          );
      alone =
          λ o n o' n' k k' e e' p. t.alone o n o' n' k k' (stays o n k e).0 (stays o' n' k' e').0 p;
    }
