-- ===== src/Lib.antt =====
-- A model of cluster-db, a replicated key-value and document store, and proofs about it.
--
-- The program's parts and where they are modelled:
--
-- Prelude        Go strings and byte slices are lists of byte values (Prelude/Bytes), maps are
--                association lists whose order stands for the order of one range statement
--                (Prelude/Table), and a method that mutates and may fail is an Action: it returns
--                its result or its error, and the state that it leaves either way (Prelude/Actions).
-- Storage        internal/storage/types.go, errors.go and manager; instants are nanoseconds since the zero
--                time.Time. Wrapped errors are the sentinels that errors.Is finds.
-- Os             The file system, the clock and encoding/gob, as the engine uses them. Every call may
--                fail by a schedule of faults, and every reading of the clock is the next of a
--                sequence; theorems hold for all schedules and clocks unless they say otherwise.
--                filepath.Dir and the gob encoding are parameters.
-- Wal            internal/storage/wal: the record format with its CRC-32 (Codec, Crc, Words), the
--                reader (Reader) and the writer over a file (Writer).
-- Memory         internal/storage/memory and internal/storage/checkpoint: the engine's state
--                (Engine), its files, segments and checkpoints (Files), its life cycle (Lifecycle),
--                replay (Replay), scans and iterators (Scan) and I/O methods (Ops). The methods run
--                under the engine's lock, so each is one atomic step. Frame, Contract and Laws prove
--                what they promise, and Recovery what a log restores.
-- HashRing       internal/cluster/hashring: the ring (Ring), Go's binary search (Search), and the
--                proofs. sort.Slice is a parameter that orders and keeps the entries, and is free in
--                the order of equal keys, as Go's sort is.
-- Cluster        internal/cluster/consistency, membership.go, gossip (the merge rules, versions,
--                MergeMembership and the failure detector pass in Gossip; the engine, its rounds and
--                what it answers in Gossip/Rounds; its replays of hints in Gossip/Replays), handoff and
--                manager.go, with its gossip engine in Manager/Exchange. The detector's passes and the
--                rounds of the loops are single steps. ReplayHints runs over any transport and with
--                hints stored between its steps; the manager's own calls of peers have their answers
--                as arguments, and a gossip round runs over any peers.
-- Config         internal/config: the settings (Types), the questions that the validator asks of
--                strings and paths (Paths), the validator (Validator), and Load with the defaults
--                (Loader), where viper is a parameter.
-- Document       internal/document/index: the secondary indexes (Index). fmt.Sprint of a field value
--                and the test of its kind by reflection are parameters. internal/document/service and
--                validator.go: the document service over the storage manager and the indexes
--                (Service), where json.Marshal and Unmarshal are parameters; its sorted queries and
--                aggregates (Service/Query), where float64, the dynamic types of values and
--                sort.SliceStable are, and what it is to be sorted (Service/Order);
--                internal/document/sharding (Sharding).
-- Server         internal/cluster/rpc/messages.go (Messages), server.go and client.go (Rpc), the
--                callbacks of internal/server/bootstrap.go (Node for those that read and write the
--                local store, Boot for the whole RPC server of a node), internal/server/handlers/kv.go
--                (Reply and Kv) and document.go (Documents). A handler runs over any peers, which are a
--                record of functions over a state of their own; a background read repair is a value
--                that the handler leaves to run. net/http is a function of an address and a request,
--                and encoding/json a codec for each type of message. Boot/World puts nodes behind a
--                network that loses requests and responses, and Boot/Replicas runs the PUT of Kv over
--                them.
-- App            internal/app: how a node is made of its settings, started and stopped.
--
-- The layers meet as in the source: a KV handler asks the cluster manager for the owners of a key,
-- which it finds on the hash ring of its membership, writes through the storage manager to the engine,
-- and keeps hints in the handoff manager. Its client reaches the RPC server of another node, which
-- writes that node's store.
--
-- Bounds and fuel. Version counters wrap at 2 ^ 64. The replay loop, the writer's loop and the binary
-- search recur on fuel that is the number of bytes or of indices left; each of their rounds uses one
-- at least. Sizes, counts and durations of the configuration are natural numbers: a negative one
-- behaves as 0 does in every test of the source. Twice a failure timeout and the sum of two quorums wrap
-- as an int64 does. The limits and offsets of queries are those that the HTTP handler passes on, where
-- no offset is below 0.
--
-- Not modelled: the client of internal/cluster/client, which nothing uses, the health handlers,
-- logging, middleware and the process's signals; goroutines other than by their single steps; contexts
-- and their deadlines, but for the errors of calls to peers; the contents of log lines and, where no
-- code reads them, of error texts. Closing a file whose error the source drops, and the name of a
-- temporary checkpoint file, have no counterpart.
pub mod Prelude
pub mod Storage
pub mod Wal
pub mod Os
pub mod Memory
pub mod HashRing
pub mod Cluster
pub mod Config
pub mod Document
pub mod Server
pub mod App
mod Tests
