-- ===== src/Lib.antt =====
-- A model of CXO, the object storage of the Skycoin project. It keeps objects by hash with a
-- references count, and exchanges the trees that they form between nodes. What is modelled here is
-- the storage: `data/cxds`, the database of objects, the cache of `skyobject` over it, the index of
-- `skyobject`, which keeps the feeds, their heads and the last Root of each head, and `registry.Refs`,
-- the Merkle tree in which an object keeps a sequence of references.
--
-- The parts. `data.CXDS` (data/cxds.go) is the interface of a database of objects: `Get`, `Set` and
-- `Inc` return or store a value under its hash and change its references count. It has two
-- implementations, a Go map (data/cxds/memory.go) and a file of BoltDB (data/cxds/drive.go), which
-- share the helpers of data/cxds/cxds.go. `skyobject.Cache` (skyobject/cache.go) stands in front of
-- a CXDS: it holds values with counts that it sends on only when it drops an item, it knows which
-- keys are wanted by fillers, and which counts are held by them. `skyobject.Index`
-- (skyobject/index.go) stands in front of `data.IdxDB` (data/idxdb.go), the database of Root objects
-- by feed, head and number: it is loaded from the database and changed together with it, in one
-- transaction of the database for each method. `registry.Refs` (skyobject/registry/refs.go and
-- refs_node.go) stands over a `registry.Pack`, a store of values by hash: its leafs hold hashes, each
-- branch is saved under the hash of what it holds, and branches are loaded when they are needed.
--
-- The files.
--   Prelude, Prelude/Int, Prelude/Lists, Prelude/Tests, Prelude/Results: shared names, Go's `int`,
--     lists by position, Boolean tests, and results with an error or a panic.
--   GoMap, GoMap/Sum: Go maps as association lists with distinct keys.
--   Bolt: what is used of a bucket of BoltDB, a parameter of the model.
--   Cxds, Cxds/Counts, Cxds/Bytes: data/cxds/cxds.go and the arithmetic of references counts.
--   Cxds/Memory: data/cxds/memory.go. `get`, `set`, `inc_rc`, `del`, `iterate`, `iterate_del`, `av`,
--     `incr` and so on are the methods of `memoryCXDS`. Memory/Stat and Memory/IterateDel hold
--     proofs about its counters and its loops.
--   Cxds/Drive: data/cxds/drive.go. The same names for the methods of `driveCXDS`; `update` and
--     `view` are the transactions. Drive/Meta is the meta bucket (`NewDriveCXDS`, `saveStat`,
--     `loadStat`, `Close`). Drive/Agree, Drive/Refines, Drive/Sequences, Drive/Failures and
--     Drive/Reopen hold proofs.
--   CxdsApi, CxdsApi/InMemory: `Get`, `Set` and `Inc` of data/cxds.go as a record of operations and a
--     record of laws, and the CXDS in memory as an instance of both. No law allows the database to
--     fail, so what is shown over any such CXDS is about a database that does not.
--   Cache/Item, Cache/Clean, Cache/Access, Cache/Filling: skyobject/cache.go. The items and
--     `delete`; `cleanDown`, `putItem` and `putFillingItem`; `Get` and `Inc`; `Set`, `Want`,
--     `Unwant`, `SetWanted` and `Finc`. Cache/Coherent, Cache/Clean/Keeps, Cache/Clean/Down,
--     Cache/Transparent, Cache/Reads, Cache/Steps, Cache/Get, Cache/Count and Cache/Lost hold
--     proofs.
--   Cipher: what is used of the package `cipher`, a parameter. Data: data/data.go, the Root of the
--     index database and `Validate`. Registry: the Root of skyobject/registry/root.go.
--   IdxDb, IdxDb/Laws: data/idxdb.go as a record of operations and a record of laws about the tree
--     of feeds, heads and Root objects, and the transactions of data/idxdb/drive.go. An iteration is
--     the list of what it goes over. The laws are an assumption on the database, which data/idxdb is
--     not shown to keep: the lemmas of Index that stand on them hold for a database that does.
--     IdxDb/Roots: the methods of `driveRoots` (`Set`, `Get`, `Del`, `Has`) over a bucket, with the
--     encoder as a parameter; IdxDb/Roots/Trip holds proofs.
--   Index: skyobject/index.go, the state, `findRoot` (`find_root`), `dataRoot` (`stored_root`),
--     `AddFeed`, `AddHead` and the queries. Index/Add holds `addRoot`, `addSavedRoot`,
--     `receivedRoot` and `ReceivedRoot`; Index/Delete `delFeed`, `delHead` and `delRoot`; Index/Load
--     `load` and `Feeds`. Index/Agree, Index/Keeps, Index/Find, Index/Newer, Index/AddRoot,
--     Index/Loaded, Index/Flaws, Index/Saved, Index/Stored, Index/Received and Index/DelRoot hold
--     proofs. Index/Steps has the calls as a step relation, and what holds after any of them.
--   Registry/Refs: skyobject/registry/refs.go and refs_node.go, the state of a Refs, and what it uses
--     of a Pack and of the encoder. Refs/Load: `initialize`, `loadSubtree`, `loadNode` and so on;
--     Refs/Find: `elementByIndex` and `HashByIndex`; Refs/Change: `SetHashByIndex`, `updateHash`,
--     `bubbleContentChanges` (`set_element`); Refs/Delete: `DeleteByIndex`; Refs/Ascend: `AscendFrom`;
--     Refs/Depth: `pow` and `depthToFit`. Refs/Holds says which list a Refs stands for, and Refs/Kept
--     what a store must do, which Refs/CxdsPack shows of the Pack of skyobject/pack.go over a CXDS; Refs/Loads, Refs/Visits, Refs/Finds, Refs/Updates, Refs/Whole, Refs/Sets,
--     Refs/Deletes, Refs/Each, Refs/Ascends and Refs/Iterates hold proofs; Refs/Edits has sequences of
--     changes.
--   Tests: the theorems at concrete inputs, over buckets and an index database of association lists.
--
-- The choices. A key, a `cipher.SHA256`, is known by its equality alone; hashing is left to the
-- callers. A `uint32` is a natural number with its wrap-around written out (`% u32`); an `int` is
-- an integer without a bound. The order of a `range` over a map is the order of the list, and
-- theorems hold for every list. A method is one step, as its lock makes it. A value that a method
-- returns beside an error is kept where callers read it. Loops are by structural recursion, but for
-- the two of Refs/Depth, where an `int` has its 64 bits. Their fuel is the exponent, which is
-- enough since it is halved in each step, and a number of steps, which need not be enough, as
-- powers that wrap around keep the loop of `depthToFit` running: its theorem says which fuel is.
-- That hashing has no collisions is a hypothesis on the package `cipher` where a theorem needs it.
-- The type of a node of a Refs has its depth; a change of an element goes down to it again and up
-- from there, where Go follows pointers up.
--
-- Not modelled: BoltDB, whose documented behaviour is in the fields of `Bolt`; the file that
-- `NewDriveCXDS` opens; iteration over a BoltDB cursor; statistics; the cache of registries and
-- `Close` of the cache; the buffers of the wanters' channels (what is offered is recorded); writes
-- to a database that is closed. Of the index, the walk over the values of a deleted Root
-- (`delRootRelatedValues`) and the methods that decode a Root from the cache (`LastRoot`, `Root`);
-- of `skyobject.Pack`, the Container behind it and its cache; of the index database, its file, the
-- buckets of feeds and heads, and the loops over cursors. Of a Refs, the hash table, descending,
-- `Append`, `Slice`, `Rebuild`, deletion by hash, and an iteration whose function changes the Refs.
-- The schemas and the walks of skyobject/registry, the fillers and the node are outside of this
-- development.
pub mod Prelude
pub mod GoMap
pub mod Bolt
pub mod Cxds
pub mod CxdsApi
pub mod Cache
pub mod Cipher
pub mod Data
pub mod IdxDb
pub mod Registry
pub mod Index
pub mod Tests
