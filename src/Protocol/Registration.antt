-- ===== src/Protocol/Registration.antt =====
-- A node that reports its ports: what the front end's `NodeInfo::readImpl` makes of the report.
use re_mo_lon.Common.{
  ℕ, ◌+◌, ◌%◌, ◌^◌, ◌<◌, ◌≡◌, sym, ap, ◌∙◌, subst, List, [], ◌++◌, Option, none, some, arith,
  length, true, ltb, append_assoc, lt→ltb,
}
use re_mo_lon.Common.Eq.{Text, text_eq, nat_eq}
use re_mo_lon.Common.Assoc.{assign_all, assign_all-append, assign-assign, Distinct}
use re_mo_lon.Common.Outcome.{Outcome, throws, fault, ok, ◌>>=◌}
use re_mo_lon.Util.ByteBuffer.{ByteBuffer, bytes_4}
use re_mo_lon.Util.ByteBuffer.Content.{IsValid, content}
use re_mo_lon.Util.ByteBuffer.Writes.{string_bytes}
use re_mo_lon.Util.ByteBuffer.Reads.{read_at}
use re_mo_lon.Util.Packet.Fields.{read_string-Receives, read_int-Receives}
use re_mo_lon.FrontEnd.Packets.{ConnectionRef, ClientPacket, node_info}
use re_mo_lon.FrontEnd.VisualizationNode.{
  VisualizationNode, set_connection, new_node, set_public_address, set_total_slots, set_used_slots,
}
use re_mo_lon.FrontEnd.VisualizationNode.Slots.{count_used, IsCounted}
use re_mo_lon.FrontEnd.NodeManager.{NodeManager, get_node, put_node, register_or_get_node}
use re_mo_lon.FrontEnd.NodeInfo.{on_node, register, read_node_info, read_report}
use re_mo_lon.Protocol.Requests.{IsShort}
use re_mo_lon.Protocol.Report.{
  with_table, Ports, report_bytes, ports_bytes, AllInt, read_slots_lem, get_put,
}

-- The entry that a packet of the connection finds or makes.
abbrev pub entry : ℕ → ℕ → ConnectionRef → NodeManager → VisualizationNode
entry total used con m = elim (get_node con.client_address m) [
  | none ↦ set_connection (some con) (new_node total used)
  | some node ↦ set_connection (some con) node
]

-- The node after a report.
abbrev pub reported : Text → Ports → VisualizationNode → VisualizationNode
reported public_address ports n = record n {
  public_address = public_address;
  total_slots = length ports;
  used_slots = count_used ports;
  slot_tracker = assign_all ports n.slot_tracker;
}

on_node_lem :
    (a : Text) (f : VisualizationNode → VisualizationNode) (n : VisualizationNode) (m : NodeManager)
    (b : Option ByteBuffer)
    → on_node a f (put_node a n m, b) ≡ ok tt (put_node a (f n) m, b)
unfolding on_node
on_node_lem a f n m b =
    ap
      (λ o. elim o as (λ _. Outcome (NodeManager × Option ByteBuffer) (Unit {0})) [
        | none ↦ fault
        | some k ↦ ok tt (put_node a (f k) (put_node a n m), b)
      ])
      (get_put a n m)
    ∙ ap (λ l. ok tt (record m { node_list = l }, b)) (assign-assign a n (f n) m.node_list)

-- The report is read into the node at `a`.
read_report_lem :
    (a : Text) (n : VisualizationNode) (m : NodeManager) (public_address : Text) (ports : Ports)
    (b : ByteBuffer) (rest : List ℕ)
    → IsShort public_address
    → length ports < 2 ^ 31
    → AllInt ports
    → IsValid b
    → content b ≡ report_bytes public_address ports ++ rest
    → (b' : ByteBuffer) × (read_report a (put_node a n m, some b)
        ≡ ok node_info (put_node a (reported public_address ports n) m, some b'))
      × IsValid b'
      × (content b' ≡ rest)
unfolding read_report
read_report_lem a n m public_address ports b rest short few ints v e =
    let k = length ports in
    let same : k % 2 ^ 32 ≡ k = omega arith in
    let zero_add : 0 + count_used ports ≡ count_used ports = omega arith in
    let open_ : ltb k (2 ^ 31) ≡ true = lt→ltb _ _ few in
    let e' : content b ≡ string_bytes public_address ++ (bytes_4 k ++ (ports_bytes ports ++ rest)) =
      e ∙ rw (same, append_assoc) in
    let (p, v1, e1) = read_string-Receives public_address short b _ v e' in
    let c : ByteBuffer = read_at b (b.read + length (string_bytes public_address)) in
    let (q, v2, e2) = read_int-Receives k (omega (arith, few)) c _ v1 e1 in
    let d : ByteBuffer = read_at c (c.read + 4) in
    let n1 : VisualizationNode = set_public_address public_address n in
    let n' : VisualizationNode = set_total_slots k n1 in
    let n2 : VisualizationNode = with_table n' (assign_all ports n'.slot_tracker) in
    let n3 : VisualizationNode = set_used_slots (count_used ports) n2 in
    let (r, v3, e3) = read_slots_lem a ports 0 n' m d rest ints v2 e2 in
    (
      read_at d (d.read + length (ports_bytes ports)),
      rw (
        p,
        ◌>>=◌,
        on_node_lem a (set_public_address public_address) n m,
        q,
        ◌>>=◌,
        on_node_lem a (set_total_slots k) n1 m,
        open_,
        r,
        ◌>>=◌,
        zero_add,
        on_node_lem a (set_used_slots (count_used ports)) n2 m,
      ),
      v3,
      e3,
    )

-- `readImpl`, after the connection's entry is there.
module _ (total used : ℕ) (con : ConnectionRef) (m : NodeManager) where
  abbrev a : Text
  a = con.client_address

  abbrev entered : NodeManager
  entered = put_node a (entry total used con m) m

  register_lem : (b : Option ByteBuffer) → register total used con (m, b) ≡ ok a (entered, b)
  unfolding register_or_get_node
  register_lem b = ground arith

  read_node_info-read_report :
      (b : Option ByteBuffer) → read_node_info total used con (m, b) ≡ read_report a (entered, b)
  unfolding read_node_info
  read_node_info-read_report b =
      ap
        (λ o. elim o as (λ _. Outcome (NodeManager × Option ByteBuffer) ClientPacket) [
          | ok c s ↦ read_report c s
          | throws x s ↦ throws x s
          | fault ↦ fault
        ])
        (register_lem b)

  -- On a valid buffer whose content starts with a node's report of a public address of fewer than
  -- 2 ^ 16 bytes and fewer than 2 ^ 31 ports that fit in an int, the front end's NodeInfo is read
  -- whole, whatever the counters of a new node hold: the entry of the connection's address then
  -- has that public address, the number of ports, the number of ports in use, and its table with
  -- every reported port written in turn; what follows the report is left.
  pub read_node_info_lem :
      (public_address : Text) (ports : Ports) (b : ByteBuffer) (rest : List ℕ)
      → IsShort public_address
      → length ports < 2 ^ 31
      → AllInt ports
      → IsValid b
      → content b ≡ report_bytes public_address ports ++ rest
      → (b' : ByteBuffer) × (read_node_info total used con (m, some b)
          ≡ ok node_info
              (put_node a (reported public_address ports (entry total used con m)) m, some b'))
        × IsValid b'
        × (content b' ≡ rest)
  read_node_info_lem public_address ports b rest short few ints v e =
      let (b', p, v', e') =
        read_report_lem a (entry total used con m) m public_address ports b rest short few ints v
          e in
      (b', read_node_info-read_report (some b) ∙ p, v', e')

first_table :
    (total used : ℕ) (con : ConnectionRef) (m : NodeManager) (ports : Ports)
    → get_node con.client_address m ≡ none
    → Distinct ports
    → assign_all ports (entry total used con m).slot_tracker ≡ ports
unfolding set_connection
first_table total used con m ports unknown distinct =
    let empty : (entry total used con m).slot_tracker ≡ [] = rw (entry, unknown) in
    ap (assign_all ports) empty ∙ assign_all-append ports [] distinct

-- The counters that a first report leaves are those of its table.
pub reported-IsCounted :
    (total used : ℕ) (con : ConnectionRef) (m : NodeManager) (public_address : Text) (ports : Ports)
    → get_node con.client_address m ≡ none
    → Distinct ports
    → length ports < 2 ^ 31
    → IsCounted (reported public_address ports (entry total used con m))
reported-IsCounted total used con m public_address ports unknown distinct few =
    let table = first_table total used con m ports unknown distinct in
    record {
      total = ap length (sym table);
      used = ap count_used (sym table);
      small = rw table few;
      distinct = subst Distinct (sym table) distinct;
    }

-- The first report from an address, of a short public address and fewer than 2 ^ 31 different
-- ports that fit in an int, on a valid buffer, is read and leaves an entry at that address whose
-- table is the reported ports and whose counters are those of the table, whatever the counters
-- held before.
pub first_report-IsCounted :
    (total used : ℕ) (con : ConnectionRef) (m : NodeManager) (public_address : Text) (ports : Ports)
    (b : ByteBuffer) (rest : List ℕ)
    → get_node con.client_address m ≡ none
    → Distinct ports
    → IsShort public_address
    → length ports < 2 ^ 31
    → AllInt ports
    → IsValid b
    → content b ≡ report_bytes public_address ports ++ rest
    → (n : VisualizationNode) × (m' : NodeManager) × (b' : ByteBuffer) × (read_node_info total used
          con
          (m, some b)
        ≡ ok node_info (m', some b'))
      × (get_node con.client_address m' ≡ some n)
      × (n.slot_tracker ≡ ports)
      × IsCounted n
      × IsValid b'
      × (content b' ≡ rest)
first_report-IsCounted total used con m public_address ports b rest new distinct short few ints v
      e =
    let (b', p, v', e') =
      read_node_info_lem total used con m public_address ports b rest short few ints v e in
    let n : VisualizationNode = reported public_address ports (entry total used con m) in
    (
      n,
      put_node con.client_address n m,
      b',
      p,
      get_put con.client_address n m,
      first_table total used con m ports new distinct,
      reported-IsCounted total used con m public_address ports new distinct few,
      v',
      e',
    )
