-- ===== src/FrontEnd/Service/Reports.antt =====
-- The first report of a node, which its selector reads on the front end.
use re_mo_lon.Common.{ℕ, ◌^◌, ◌<◌, ◌≡◌, refl, List, ◌++◌, none, arith, length}
use re_mo_lon.Common.Eq.{Text, text_eq, nat_eq, text_beq_iff}
use re_mo_lon.Common.Assoc.{Distinct, find-assign, assign-Distinct}
use re_mo_lon.Util.ByteBuffer.{ByteBuffer}
use re_mo_lon.Util.ByteBuffer.Content.{IsValid, content}
use re_mo_lon.FrontEnd.Packets.{ConnectionRef}
use re_mo_lon.FrontEnd.VisualizationNode.{VisualizationNode, set_connection}
use re_mo_lon.FrontEnd.NodeManager.{NodeManager, get_node, put_node}
use re_mo_lon.FrontEnd.SessionTracker.{Tracker, SessionInfo}
use re_mo_lon.FrontEnd.SessionTracker.Reservation.{assign-AllCounted}
use re_mo_lon.FrontEnd.SessionTracker.Exclusive.{Inv, NodesValid, HoldsSlot, assign-AllAddressed}
use re_mo_lon.Protocol.Requests.{IsShort}
use re_mo_lon.Protocol.Report.{Ports, report_bytes, AllInt}
use re_mo_lon.Protocol.Registration.{entry, reported, reported-IsCounted}

-- The buffer holds the report of a node that the front end does not know, with different ports.
pub record FirstReport (con : ConnectionRef) (b : ByteBuffer) (m : NodeManager) : Type 0 where
  pub public_address : Text
  pub ports : Ports
  pub rest : List ℕ
  pub unknown : get_node con.client_address m ≡ none
  pub distinct : Distinct ports
  pub short : IsShort public_address
  pub few : length ports < 2 ^ 31
  pub ints : AllInt ports
  pub valid : IsValid b
  pub holds : content b ≡ report_bytes public_address ports ++ rest

module _ (junk_total junk_used : ℕ) (con : ConnectionRef) (b : ByteBuffer) (t : Tracker)
    (first : FirstReport con b t.nodes) (v : Inv t) where
  abbrev a : Text
  a = con.client_address

  abbrev joined : VisualizationNode
  joined = reported first.public_address first.ports (entry junk_total junk_used con t.nodes)

  own_address : joined.address ≡ a
  unfolding set_connection
  own_address = rw (entry, first.unknown) refl

  joined-NodesValid : NodesValid (put_node a joined t.nodes)
  joined-NodesValid = record {
    counted =
        assign-AllCounted a joined _
          (reported-IsCounted junk_total junk_used con t.nodes first.public_address first.ports
            first.unknown first.distinct first.few)
          v.nodes_valid.counted;
    keyed = assign-Distinct a joined _ v.nodes_valid.keyed;
    addressed = assign-AllAddressed a joined _ own_address v.nodes_valid.addressed;
  }

  -- The sessions are on other nodes.
  still_held : (i : SessionInfo) → HoldsSlot i t.nodes → HoldsSlot i (put_node a joined t.nodes)
  unfolding get_node
  still_held i (node, f, g) = (
    node,
    ground (
      arith,
      f,
      first.unknown,
      find-assign a i.node_address joined t.nodes.node_list,
      text_beq_iff a i.node_address,
    ),
    g,
  )

  pub joined-Inv : Inv (record t { nodes = put_node a joined t.nodes })
  joined-Inv = record {
    nodes_valid = joined-NodesValid;
    held = λ u n i e. still_held i (v.held u n i e);
    exclusive = v.exclusive;
  }
