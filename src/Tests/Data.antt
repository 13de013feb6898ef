-- ===== src/Tests/Data.antt =====
-- Buffers, nodes and names that the tests share.
use re_mo_lon.Common.{ℕ, zero, suc, refl, List, [], ◌∷◌, true, false, some, arith, length}
use re_mo_lon.Common.Eq.{Text, text_eq, nat_eq}
use re_mo_lon.Util.ByteBuffer.{ByteBuffer}
use re_mo_lon.Util.ByteBuffer.Content.{IsValid}
use re_mo_lon.FrontEnd.Packets.{ConnectionRef}
use re_mo_lon.FrontEnd.VisualizationNode.{VisualizationNode}
use re_mo_lon.FrontEnd.VisualizationNode.Slots.{IsCounted}
use re_mo_lon.FrontEnd.NodeManager.{NodeManager}
use re_mo_lon.FrontEnd.User.{User}

abbrev pub zeros : ℕ → List ℕ
zeros zero = []
zeros (suc n) = 0 ∷ zeros n

-- A buffer of 48 bytes with nothing in it.
abbrev pub empty : ByteBuffer
empty = record { mem = zeros 48; used = 0; read = 0; size = 48 }

pub empty-IsValid : IsValid empty
empty-IsValid = record {
  owned = refl;
  read_le = omega arith;
  used_le = omega arith;
  small = omega arith;
}

-- A full buffer.
abbrev pub holding : List ℕ → ByteBuffer
holding bs = record { mem = bs; used = length bs; read = 0; size = length bs }

-- "ana", "s1" and "10.0.0.7"
abbrev pub ana : Text
ana = 97 ∷ 110 ∷ 97 ∷ []

abbrev pub s1 : Text
s1 = 115 ∷ 49 ∷ []

abbrev pub node_address : Text
node_address = 49 ∷ 48 ∷ 46 ∷ 48 ∷ 46 ∷ 48 ∷ 46 ∷ 55 ∷ []

abbrev pub con : ConnectionRef
con = record { id = 5; client_address = node_address }

abbrev pub user : User
user = record {
  unix_user = ana;
  unix_pwd = [];
  ip_address = [];
  user_id = 1000;
  group_id = 1000;
  active_sessions = [];
}

-- A node with the ports 8001, in use, and 8002.
abbrev pub node : VisualizationNode
node = record {
  con = some con;
  address = node_address;
  public_address = [];
  total_slots = 2;
  used_slots = 1;
  slot_tracker = (8001, true) ∷ (8002, false) ∷ [];
}

pub node-IsCounted : IsCounted node
node-IsCounted = record {
  total = refl;
  used = refl;
  small = omega arith;
  distinct = ((refl, tt), (tt, tt));
}

abbrev pub nodes : NodeManager
nodes = record { enable_load_balance = true; node_list = (node_address, node) ∷ [] }

abbrev pub no_nodes : NodeManager
no_nodes = record { enable_load_balance = true; node_list = [] }
