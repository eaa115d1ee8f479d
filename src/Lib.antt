-- ===== src/Lib.antt =====
-- kvspace-c: a key-value store in shared memory, modelled from its C sources.
--
-- A store is a few mapped files: a header with counters and a registry of processes, a slab of
-- blocks that holds an adaptive radix tree from keys to boxes, a box allocator with the values,
-- and a ring of retired boxes. One process writes; any number read through tokens. A box that the
-- writer retires is freed only after every process has acknowledged a new recovery epoch.
--
-- Which file models what:
--   Coord         src/coord.c: the order of coordinate names in a listing
--   Registry      src/kvspace.c: `p2_proc_starttime` on Linux, `p2_slot_alive`, `p2_claim_alive`,
--                 `p2_reg_claim`, `p2_reg_release`
--   Ring          src/kvspace.c: `garb_reserve`, `garb_commit`, `garb_cancel`, `p2_drain`
--   Barrier       src/kvspace.c: `p2_elect`, `p2_release_busy`, `p2_wait_acks`
--   Maintenance   src/kvspace.c: `p2_round`, `p2_maint_start`, `p2_maint_stop`,
--                 `kvspaceShmViewAck`, `kvspaceShmViewQuiesce`
--   Keys          src/kvspace.c: the functions on paths; src/durable_abi.c: `parse_shm_path`
--   Art/Node      src/kvspace.c: the layouts of a tree node, `art_child`, `art_add`, `art_rm`,
--                 `art_grow`
--   Art/Tree      src/kvspace.c: `art_walk`, `art_find2`, `art_find_dir`, `art_follow`,
--                 `art_leaf_chain`
--   Art/Scan      src/kvspace.c: `art_cover`, `art_collect_keys`, `art_scan_keys`
--   Art/Children  src/kvspace.c: `art_has_live_value`, `art_scan_children`, `art_scan_pfx`
--   Regions       src/kvspace.c: `region_map`, `region_attach`, `gens_grow`, `kv_sync`,
--                 `art_slab_grow`, `sbo_head_grow`
--   Values        src/xvalue_internal.h, and `head_of`, `parse_value` of src/kvspace.c
--   Store         src/kvspace.c: the state of a handle; `kvspaceShmGet`, `kvspaceShmResolveRef`,
--                 `kvspaceShmGetByRef`, `kvspaceShmSetPart`, `kvspaceShmSetPartByRef`,
--                 `kvspaceShmWriteInPlace`, `kvspaceShmXvalueBodyView`
--   View          src/kvspace.c: the tokens, `kvspaceShmView*` and `kvspaceShmResolvePrefix`
--   Delete        src/kvspace.c: `art_del`, `kvspaceShmDel`, `kvspaceShmDeltree`
--   Listing       src/kvspace.c: `list_target`, `list_scan`, `kvspaceShmList`, `list_cached`,
--                 `kvspaceShmListLen`, `kvspaceShmListAt`
--   Abi           src/durable_abi.c: reads, part writes, deletions, constructors, `kvspaceWatch`
--   Allocator     the box allocator, which is another repository's: a parameter
--   Prelude       shared names, byte strings, and lists with native indices
-- The Tests module of a part runs it on small inputs.
--
-- State is passed explicitly: a function takes the part of the shared header or of the handle that
-- the source reads, and returns what it writes. What other processes, `/proc` and the clock do is an
-- argument: `Procs` for `/proc`, `Poll` for the turns of a wait, `World` for a round. The functions
-- of Registry, Ring and Maintenance run without steps of other processes inside them; the election
-- also has a step relation in Barrier/Election, in which loads, decisions, swaps and deaths of
-- all processes interleave.
--
-- Numbers are natural numbers, and a 32-bit or 64-bit counter keeps its wrap-around written out. The
-- index of the ring is masked by `% 2 ^ 21`. A loop that is not structural runs on fuel: `drain`
-- takes one unit for each index from the head to the tail, `position` one for each turn of a binary
-- search, `find2` and `leaf_chain` one for each node on the way down, and each is shown to be given
-- enough. `parse_coord` has a result of its own where the C code overflows `int64_t`. A slab hands out
-- blocks up to a limit, which stands for the largest size to which it can be grown.
--
-- The walk of a prefix and `art_del` run on one unit of fuel for each byte of the key and two more,
-- as `find2` does, and the scan of a subtree on one for each byte of its buffer and one more, since
-- every deeper call has a longer path. `has_live` has one for each block that was handed out and
-- one more, which is enough on a tree, where no path comes to a block twice. A handle is the record
-- `Store`, which the operations on keys, tokens, deletions and listings share; an operation returns
-- its result with the store that it leaves. A pointer into the data is an offset. What the
-- operating system answers to `mmap` and `ftruncate` is the record `Os`, and the functions of
-- `kvspace/xvalue_head.h` are the record `Wire`.
--
-- Not modelled: insertion into the tree and the operations that store values by it, the allocation
-- of boxes with the growth of their data (`kv_sbo_alloc`, `kv_sbo_grow`, `sbo_data_grow`), copies
-- and indexes, open and close, watch and notify, and the wrappers of the durable ABI that only pass
-- on their arguments. Memory order, messages on stderr and test hooks are left out.
pub mod Prelude
pub mod Coord
pub mod Registry
pub mod Allocator
pub mod Ring
pub mod Barrier
pub mod Maintenance
pub mod Keys
pub mod Art
pub mod Values
pub mod Regions
pub mod Store
pub mod View
pub mod Listing
pub mod Delete
pub mod Abi
