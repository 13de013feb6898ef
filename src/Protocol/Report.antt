-- ===== src/Protocol/Report.antt =====
-- From a node to the front end: the report of its ports, and the node that the front end then has.
use re_mo_lon.Common.{
  ℕ, suc, ◌+◌, ◌%◌, ◌^◌, ◌<◌, ◌≡◌, refl, ap, subst, List, [], ◌∷◌, ◌++◌, Bool, true, false, Option,
  some, arith, length, if◌then◌else◌,
}
use re_mo_lon.Common.Eq.{Text, nat_eq, text_eq}
use re_mo_lon.Common.Assoc.{assign-assign, assign_all, find-assign_self}
use re_mo_lon.Common.Outcome.{Outcome, ok, ◌>>=◌}
use re_mo_lon.Util.ByteBuffer.{ByteBuffer, bytes_4}
use re_mo_lon.Util.ByteBuffer.Content.{IsValid, content}
use re_mo_lon.Util.ByteBuffer.Writes.{string_bytes}
use re_mo_lon.Util.ByteBuffer.Reads.{read_at}
use re_mo_lon.Util.Packet.Fields.{Sends, nothing-Sends, string-Sends, int-Sends, read_int-Receives}
use re_mo_lon.FrontEnd.VisualizationNode.{VisualizationNode, add_available_port}
use re_mo_lon.FrontEnd.VisualizationNode.Slots.{count_used}
use re_mo_lon.FrontEnd.NodeManager.{NodeManager, get_node, put_node}
use re_mo_lon.FrontEnd.NodeInfo.{read_slots, is_positive, on_node}
use re_mo_lon.Node.Packets.{write_ports, write_node_info}

abbrev pub Ports : Type 0
Ports = List (ℕ × Bool)

abbrev pub flag : Bool → ℕ
flag used = if used then 1 else 0

abbrev pub ports_bytes : Ports → List ℕ
ports_bytes [] = []
ports_bytes ((port, used) ∷ ports) = bytes_4 port ++ (bytes_4 (flag used) ++ ports_bytes ports)

abbrev pub report_bytes : Text → Ports → List ℕ
report_bytes address ports =
    string_bytes address ++ (bytes_4 (length ports % 2 ^ 32) ++ ports_bytes ports)

write_ports-Sends : (ports : Ports) → Sends (write_ports ports) (ports_bytes ports)
unfolding write_ports
write_ports-Sends [] = nothing-Sends
write_ports-Sends ((port, used) ∷ ports) =
    let later = write_ports-Sends ports in int-Sends _ _ (int-Sends _ _ later (flag used)) port

-- The report goes out whole.
pub write_node_info-Sends :
    (address : Text) (ports : Ports)
    → length address < 2 ^ 16
    → Sends (write_node_info address ports) (report_bytes address ports)
unfolding write_node_info
write_node_info-Sends address ports h =
    string-Sends _ _ (int-Sends _ _ (write_ports-Sends ports) (length ports % 2 ^ 32)) address
      (omega arith)

-- The ports are numbers that an `int` can hold.
abbrev pub AllInt : Ports → Type 0
AllInt [] = Unit {0}
AllInt ((port, used) ∷ ports) = (port < 2 ^ 32) × AllInt ports

abbrev pub with_table : VisualizationNode → Ports → VisualizationNode
with_table n table = record n { slot_tracker = table }

flag_read : (used : Bool) → is_positive (flag used) ≡ used
flag_read true = refl
flag_read false = refl

pub flag_small : (used : Bool) → flag used < 2 ^ 32
flag_small true = omega arith
flag_small false = omega arith

pub put_twice :
    (a : Text) (n n' : VisualizationNode) (m : NodeManager)
    → put_node a n' (put_node a n m) ≡ put_node a n' m
put_twice a n n' m = ap (λ l. record m { node_list = l }) (assign-assign a n n' m.node_list)

pub get_put :
    (a : Text) (n : VisualizationNode) (m : NodeManager) → get_node a (put_node a n m) ≡ some n
unfolding get_node
get_put a n m = find-assign_self a n m.node_list

-- A run that ends with the count `k`, the table `table` in the node, and position `p`, where `rest`
-- is left.
abbrev pub EndsWith :
    Outcome (NodeManager × Option ByteBuffer) ℕ → NodeManager → ByteBuffer → List ℕ → ℕ → ℕ → Type 0
EndsWith run m b rest k p =
    (run ≡ ok k (m, some (read_at b p))) × IsValid (read_at b p) × (content (read_at b p) ≡ rest)

-- The loop reads the ports that are there, in turn.
pub read_slots_lem :
    (a : Text) (ports : Ports) (used : ℕ) (n : VisualizationNode) (m : NodeManager) (b : ByteBuffer)
    (rest : List ℕ)
    → AllInt ports
    → IsValid b
    → content b ≡ ports_bytes ports ++ rest
    → EndsWith
        (read_slots a (length ports) used (put_node a n m, some b))
        (put_node a (with_table n (assign_all ports n.slot_tracker)) m)
        b
        rest
        (used + count_used ports)
        (b.read + length (ports_bytes ports))
unfolding on_node read_slots add_available_port
read_slots_lem a [] used n m b rest h v e =
    let count : used ≡ used + 0 = omega arith in
    let position : b.read ≡ b.read + 0 = omega arith in
    let run = read_slots a 0 used (put_node a n m, some b) in
    subst (λ k. EndsWith run (put_node a n m) b rest k (b.read + 0)) count
      (subst (EndsWith run (put_node a n m) b rest used) position (refl, v, e))
read_slots_lem a ((port, u) ∷ ports) used n m b rest (hp, h) v e =
    let (p, v', e') = read_int-Receives port hp b _ v e in
    let c : ByteBuffer = read_at b (b.read + 4) in
    let (q, v'', e'') = read_int-Receives (flag u) (flag_small u) c _ v' e' in
    let d : ByteBuffer = read_at c (c.read + 4) in
    let n' : VisualizationNode = add_available_port port u n in
    let used' : ℕ = if u then used + 1 else used in
    let (r, v3, e3) = read_slots_lem a ports used' n' m d rest h v'' e'' in
    let count : used' + count_used ports ≡ used + (flag u + count_used ports) = ground arith in
    let position : d.read + length (ports_bytes ports)
        ≡ b.read + length (ports_bytes ((port, u) ∷ ports)) =
      omega arith in
    let run = read_slots a (suc (length ports)) used (put_node a n m, some b) in
    let m' : NodeManager = put_node a (with_table n' (assign_all ports n'.slot_tracker)) m in
    subst (λ k. EndsWith run m' b rest k (b.read + length (ports_bytes ((port, u) ∷ ports)))) count
      (subst (EndsWith run m' b rest (used' + count_used ports)) position
        (rw (p, ◌>>=◌, q, ◌>>=◌, get_put, put_twice, flag_read) r, v3, e3))
