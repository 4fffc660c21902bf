-- ===== src/Lib.antt =====
-- smrender, a rule-based renderer for OpenStreetMap data: the core of the program.
--
-- The objects of a map are kept in a tree of 64 bit ids (libsmrender/bxtree.c), each leaf of which
-- has a slot for each kind of object (libsmrender/smutil.c). The rules are objects too, in a tree of
-- their own. src/smcore.c runs the rules of a version, relations first, then ways, then nodes: for
-- each rule `apply_smrules` traverses the objects of the rule's kind, `apply_rule` tests whether
-- the rule applies to an object (its tags are matched by `bs_match_attr`) and calls the rule's
-- function, and `call_fini` ends the rule. The rules' conditions are parsed by src/smrparse.c.
-- The daemon talks to its clients through frames of a websocket (smrenderd/websocket.c).
--
-- Base         numbers, lists and options that the other files share
-- Bxtree       libsmrender/bxtree.c: `Node`, `Tree`, `Stats` (the counters of memory), `bx_...`
-- ObjTree      libsmrender/smutil.c: `put_object0_ctrl`, `get_object0`, `rem_object` and the like;
--              `Put` holds what a call returns and writes through its pointers
-- Traverse     src/smcore.c: `traverse`, `execute_treefunc`; Traverse.InOrder puts the parts
--              together, Entries, Walk, Order and Lookup have them
-- Bstring      libsmrender/bstring.c: strings with a length as lists of bytes
-- Match        libsmrender/smutil.c: `bs_match`, `bs_match_attr`; Match.Parse is `parse_matchtype`
--              and `parse_matchtag` of src/smrparse.c
-- Rules        src/smcore.c: `apply_rule`, `call_ini`, `call_fini`, `apply_smrules`,
--              `execute_rules`, on the state `Env` of Rules.State; Rules.WayType is `check_way_type` of
--              src/smrparse.c
-- ThreadQueue  src/smthread.c: `obj_queue_ini`, `obj_queue`, `obj_queue_signal`, `get_free_thread`;
--              ThreadQueue.System is the step relation of the main thread and the workers, in which
--              each function that runs under the mutex is one step, Invariant what holds in every
--              reachable state
-- Kap          src/smkap.c: the indices of the palette, `get_depth` and the compression of the rows of
--              an image, with a reader of rows in Kap.Groups, Kap.Runs and Kap.Rows.
-- CyclicList   libsmrender/lists.c: `li_new`, `li_add`, `li_unlink`, `li_destroy` on a memory of
--              elements at addresses, with malloc() as a parameter
-- RevIndex     src/smcore.c: `add_rev_ptr`, `rev_index_way_nodes`, `rev_index_rel_nodes`,
--              `insert_refs`
-- Params       libsmrender/smutil.c: `get_param_err` and the Boolean parameters
-- ParamText    src/smrparse.c: `parse_string`, `parse_fparam` on the text of a rule's parameters;
--              ParamText.Words and ParamText.Written have the written form
-- Roles        libsmrender/osm_func.c: `strrole`, `role_str` on a list of CyclicList
-- Json         src/smjson.c: `bs_stresc`, `jesc`
-- Smem         src/smem.c: `sm_alloc`, `sm_free`, the free list and its consolidation
-- UniqueIds    libsmrender/smutil.c: `unique_node_id`, `set_unique_node_id`, and those of ways
-- Websocket    smrenderd/websocket.c: headers, lengths, masks; Websocket.Io has `ws_read_frame`,
--              Websocket.Write `ws_write`, Websocket.Read `ws_read`
-- Qcache       smrenderd/smcache.c: the cache of queries
-- Alignment    src/smrparse.c: `parse_alignment_str`, `parse_alignment`
-- Length       src/smrparse.c: `parse_unit`, `parse_length`, `parse_length_def`
-- Tests        runs at concrete inputs
--
-- A pointer that may be NULL is an `Option`, an array that is read by its index a function, an int
-- that may be negative a `ℤ`. The tree has the 16 slots and 16 levels of the default configuration.
-- Ids are the bit patterns of int64_t. A loop is a recursion on the rounds that are left; these run
-- on fuel: `ws_read_frame`, a unit for each byte of the buffer and one more, which
-- Websocket.Io.Returns proves to be enough; `ws_write`, a unit for each byte of the message
-- (Websocket.Write.Complete); `ws_read`, a unit for each frame, since what is read is not bounded
-- by the code (for a message that ws_write has sent, Websocket.Read.RoundTrip); `li_destroy`, a
-- unit for each element (CyclicList.Destroyed); `parse_fparam`, a unit for each character and one
-- more (ParamText.Ends); the runs of a row, a unit for each pixel (Kap.Rows); `get_depth`, a unit
-- for each color (Kap.Depths); `strrole` and `role_str`, a unit for each role and two more
-- (Roles.Numbered); and the loop of `sm_mem_free`, which need not end (Smem.Passes).
-- `bsb_compress_nb` is a recursion of depth 3, which is all that a uint16_t takes.
--
-- What the C library, the operating system and the rules' own functions do is a parameter: the
-- records `Libc`, `Fd` and `Callees`, and malloc(), strtod() and bs_strdup() where they are called.
-- Not modelled are log lines, timers and the locks outside ThreadQueue, the rendering through
-- cairo, the geometry in floating point, files and sockets, and src/libhpxml.c, which is a copy of
-- another library.
pub mod Base
pub mod Bxtree
pub mod ObjTree
pub mod Traverse
pub mod Bstring
pub mod Match
pub mod Rules
pub mod Websocket
pub mod RevIndex
pub mod Params
pub mod UniqueIds
pub mod Qcache
pub mod CyclicList
pub mod ThreadQueue
pub mod Alignment
pub mod Kap
pub mod ParamText
pub mod Smem
pub mod Roles
pub mod Json
pub mod Length
pub mod Tests
