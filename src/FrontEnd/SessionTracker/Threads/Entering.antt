-- ===== src/FrontEnd/SessionTracker/Threads/Entering.antt =====
-- The entry of a session whose slot is reserved.
use re_mo_lon.Common.{
  ℕ, ◌≡◌, sym, ap, subst, ◌∙◌, ◌⊎◌, inl, inr, none, some, ◌&&◌, nat_beq_iff, arith, Bool-cases,
}
use re_mo_lon.Common.Eq.{Text, text_eq, nat_eq, text_beq_iff, ◌==◌}
use re_mo_lon.Common.Assoc
use re_mo_lon.Common.Assoc.{find-assign, assign-Distinct}
use re_mo_lon.FrontEnd.User.{get_user_name}
use re_mo_lon.FrontEnd.VisualizationNode.{VisualizationNode}
use re_mo_lon.FrontEnd.SessionTracker.{
  SessionInfo, OpenSessions, new_session, set_session_info, enter_session,
}
use re_mo_lon.FrontEnd.SessionTracker.Lookup.{session_at, session_at-set}
use re_mo_lon.FrontEnd.SessionTracker.Threads.{Flight, Shared, set_flight}
use re_mo_lon.FrontEnd.SessionTracker.Threads.Reserving.{
  HeldAt, SharedInv, find-AllAddressed, unset-cases,
}

-- The entry of the session of a creation.
module _ (s : Shared) (v : SharedInv s) (i : ℕ) (f : Flight) (n : VisualizationNode)
    (under_way : s.flights i ≡ some f)
    (found : Assoc.find f.address s.tracker.nodes.node_list ≡ some n) where
  abbrev session : SessionInfo
  session = new_session f.user f.name n f.port

  abbrev opened : OpenSessions
  opened = set_session_info f.user f.name session s.tracker.open_sessions

  abbrev pub entered : Shared
  entered = record {
    tracker = (enter_session f.user f.name n f.port s.tracker.nodes s.tracker).2;
    flights = set_flight i none s.flights;
  }

  at_address : n.address ≡ f.address
  at_address = find-AllAddressed f.address n _ v.sessions.nodes_valid.addressed found

  session_at-cases :
      (u k : Text) (info : SessionInfo)
      → session_at u k opened ≡ some info
      → ((get_user_name f.user ≡ u) × (f.name ≡ k) × (info ≡ session))
        ⊎ (session_at u k s.tracker.open_sessions ≡ some info)
  session_at-cases u k info e = elim (Bool-cases ((get_user_name f.user == u) && (f.name == k))) [
    | inl new ↦ inl (
        ground (
          arith,
          session_at-set f.user f.name session s.tracker.open_sessions u k,
          text_beq_iff (get_user_name f.user) u,
          text_beq_iff f.name k,
        ))
    | inr old ↦
        inr (ground (arith, session_at-set f.user f.name session s.tracker.open_sessions u k))
  ]

  -- Nothing else has the slot.
  no_session :
      (u k : Text) (info : SessionInfo)
      → session_at u k s.tracker.open_sessions ≡ some info
      → info.node_address ≡ n.address
      → info.node_port ≡ f.port
      → ⊥
  no_session u k info e ea ep = v.apart i f u k info under_way e (ea ∙ at_address) ep

  pub entered-SharedInv : SharedInv entered
  unfolding enter_session
  entered-SharedInv = record {
    sessions = record {
      nodes_valid = v.sessions.nodes_valid;
      held = λ u k info e. elim (session_at-cases u k info e) [
        | inl (_, _, new) ↦
            subst (λ x. HeldAt x.node_address x.node_port s.tracker.nodes) (sym new)
              (subst (λ b. HeldAt b f.port s.tracker.nodes) (sym at_address)
                (v.flying i f under_way))
        | inr old ↦ v.sessions.held u k info old
      ];
      exclusive = λ u k u' k' info info' e e' ea ep. elim (session_at-cases u k info e) [
        | inl (eu, ek, new) ↦ elim (session_at-cases u' k' info' e') [
          | inl (eu', ek', _) ↦ (sym eu ∙ eu', sym ek ∙ ek')
          | inr old ↦ absurd (
              no_session u' k' info' old (sym ea ∙ ap (λ x. x.node_address) new)
                (sym ep ∙ ap (λ x. x.node_port) new))
        ]
        | inr old ↦ elim (session_at-cases u' k' info' e') [
          | inl (_, _, new) ↦ absurd (
              no_session u k info old (ea ∙ ap (λ x. x.node_address) new)
                (ep ∙ ap (λ x. x.node_port) new))
          | inr old' ↦ v.sessions.exclusive u k u' k' info info' old old' ea ep
        ]
      ];
    };
    flying = λ j g e. v.flying j g (unset-cases i j s.flights g e);
    apart = λ j g u k info e d ea ep. elim (session_at-cases u k info d) [
      | inl (_, _, new) ↦
          let same =
            v.alone i j f g under_way (unset-cases i j s.flights g e)
              (sym at_address ∙ sym (ap (λ x. x.node_address) new) ∙ ea)
              (sym (ap (λ x. x.node_port) new) ∙ ep) in
          ground (arith, e, same, nat_beq_iff i j)
      | inr old ↦ v.apart j g u k info (unset-cases i j s.flights g e) old ea ep
    ];
    alone = λ j k g h e d ea ep.
        v.alone j k g h (unset-cases i j s.flights g e) (unset-cases i k s.flights h d) ea ep;
  }
