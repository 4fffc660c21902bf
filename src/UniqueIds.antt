-- ===== src/UniqueIds.antt =====
-- The unique ids of libsmrender/smutil.c. The counters only fall, from -100000000000, so each is
-- kept as the distance below 0; that they do not leave the range of int64_t is not modelled.
pub mod Fresh
use smrender.Base.{ℕ, ◌+◌, List, [], ◌∷◌, ltb, if◌then◌else◌, ℤ, neg_part}

-- unid_ and uwid_
pub record Ids : Type 0 where
  pub unid : ℕ
  pub uwid : ℕ

abbrev pub ids_start : Ids
ids_start = record { unid = 100000000000; uwid = 100000000000 }

-- id = unid_--; the id returned stands for its distance below 0.
unfoldable pub unique_node_id : Ids → ℕ × Ids
unique_node_id s = (s.unid, record s { unid = s.unid + 1 })

unfoldable pub unique_way_id : Ids → ℕ × Ids
unique_way_id s = (s.uwid, record s { uwid = s.uwid + 1 })

-- if (id < unid_) unid_ = id;
unfoldable pub set_unique_node_id : ℤ → Ids → Ids
set_unique_node_id id s = if ltb s.unid (neg_part id) then record s { unid = neg_part id } else s

unfoldable pub set_unique_way_id : ℤ → Ids → Ids
set_unique_way_id id s = if ltb s.uwid (neg_part id) then record s { uwid = neg_part id } else s

-- The calls of a run of the program, in their order.
pub data Call : Type 0 where
  new_node new_way : Call
  set_node set_way : ℤ → Call

-- The ids of nodes that a run returns, as distances below 0, and the state behind it.
unfoldable pub node_ids : List Call → Ids → List ℕ × Ids
unfolding unique_node_id unique_way_id set_unique_node_id set_unique_way_id
node_ids [] s = ([], s)
node_ids (Call.new_node ∷ cs) s =
    let (id, s1) = unique_node_id s in let (ids, s2) = node_ids cs s1 in (id ∷ ids, s2)
node_ids (Call.new_way ∷ cs) s = node_ids cs (unique_way_id s).1
node_ids (Call.set_node id ∷ cs) s = node_ids cs (set_unique_node_id id s)
node_ids (Call.set_way id ∷ cs) s = node_ids cs (set_unique_way_id id s)
