-- ===== src/Lib.antt =====
-- Verification of omarchy-harbormaster, the manager of coding-agent runs: crates/harbormaster/src.
--
-- A producer (an agent's hook) connects to the manager's event socket and sends frames, one JSON
-- object on a line. `ipc` cuts the stream into frames. `ingestion` negotiates a session with it,
-- admits each frame at most once and in sequence, and queues the event for its consumer. `domain`
-- reduces an accepted event on the state of its run to effects: a new projection, attention for
-- the user, a tombstone of a turn that is over, a demand for reconciliation. `coordinator` takes
-- one event to its receipt: it asks the database's worker for the event's context, reduces, and
-- asks for the write; it takes a reconciliation to an installed generation in the same way.
-- `storage` answers these requests, each in one transaction on its tables. A client on the control
-- socket negotiates operations, and `ingestion/control.rs` authorizes its requests. `protocol` has
-- the types on which they agree.
--
-- The files, with the code that each models:
--   Common           Rust's Result, BTreeMap, BTreeSet, lists and equality, as the code uses them
--   Protocol         protocol/mod.rs; Protocol/Identity, Event, Control and Capability model the
--                    file of the same name, and Protocol/Bounds proves what a bounded set is
--   Domain           Domain/Types: domain/types.rs and the records of domain/mod.rs; Domain/Policy,
--                    Evidence, Reducer, Reconciliation: the file of the same name. `&mut Effects` is
--                    explicit: each function takes the effects to the new effects. Proofs are in
--                    Acceptance, Consistency, Invariants, Terminal, Attention, Support and Baseline.
--   Ingestion        the limits and errors of ingestion/mod.rs
--   Ingestion/Queue  ingestion/queue.rs; its proofs are in Queue/Invariant, Popping, Fifo and Capacity
--   Ingestion/Registry
--                    ingestion/registry.rs, its records in Registry/Types and admission in
--                    Registry/Reservation. A method takes the registry to its result and the
--                    registry that it leaves, early returns included. The other children hold
--                    proofs; Registry/History runs any sequence of calls.
--   Ingestion/Control
--                    ingestion/control.rs; its proofs are in Control/Authority
--   Ipc, Ipc/Framing ipc/framing.rs and the errors of ipc/mod.rs. Framing/Stream has a loop that
--                    feeds a decoder chunk after chunk; the other children hold proofs: Bytewise,
--                    Chunks, Lines and Roundtrip of the decoder, Outbound and Sending of the
--                    outbound queue.
--   Ipc/Connection   ipc/connection.rs; its proofs are in Connection/Calls, Deadlines, Feeding,
--                    Receiving, Failing, Received and Budget
--   Storage          the errors of storage/mod.rs. Storage/Types: types.rs and reducer_types.rs;
--                    Storage/Database: the tables of schema_layout.rs, with queries.rs;
--                    Storage/Context, Attention, Retirement, Transaction, Reduction, Reconciling,
--                    Validation and Engine: context.rs, attention_state.rs, retirement.rs,
--                    transaction.rs, reducer_transaction.rs, reconciliation.rs,
--                    reducer_validation.rs and engine.rs. A transaction takes the tables to its
--                    answer and the tables that it leaves, or to an error, which leaves them as they
--                    were. Proofs are in Soundness (what holds of the tables between transactions;
--                    Soundness/History runs requests of the reducer path and restarts), Receipts, Revisions,
--                    Retiring, Reconciling/Registered and Validation/Reduced.
--   Coordinator      the records of coordinator/mod.rs. Coordinator/Operation: operation.rs and the
--                    tickets of storage/worker/pending.rs; Coordinator/Job and Coordinator/Commit:
--                    commit.rs; Coordinator/Decision: decision.rs; Coordinator/Registration:
--                    registration.rs. Commit/World puts a job beside the database's thread, and takes
--                    any order of their steps; the other children hold proofs.
-- The modules called Tests hold concrete runs and an instance of each result.
--
-- Numbers are natural numbers. A `u64` sequence is bounded where the code checks it
-- (`checked_next`), and `saturating_add` saturates at the limit of a `u64`; a `usize` subtraction
-- is the truncated one of the naturals, which is the code's where what is given back was counted
-- before (the sums of Registry/Soundness). A BTreeMap is an association list, since no code
-- modelled here reads its order; a BTreeSet is an ascending list. A string is the list of its
-- UTF-8 bytes. An `Rc<()>` is the number of its allocation, and `Rc::ptr_eq` the equality of
-- these. Each loop is a structural recursion but the one that feeds a chunk to the decoder
-- (Ipc/Framing/Stream, `drain`), which runs on fuel: the length of the chunk, which is enough
-- since every round consumes a byte (Ipc/Framing/Chunks).
--
-- Inputs of the model: the verdict of `parse_event` (protocol/event.rs), which is not modelled
-- since it decodes with serde_json, is an argument of `admit`; the generation that
-- `generation::fresh` (generation.rs) draws from the system's entropy is an argument of
-- `reconcile`; what a socket answers to a read or a write, the current instant (in milliseconds)
-- and the verdict on a peer's credentials are arguments of the methods of a connection; what
-- serde_json makes of a write set, what it and `parse_event` make of a stored text, and whether an
-- event fits a frame (`encode_frame`), are the fields of Json (Storage/Database), of which IsCodec
-- (Storage/Soundness) says that a written set reads back as its fact; whether the worker takes a
-- submission, and what its reply channel has, are arguments of a job's poll.
--
-- Not modelled: JSON decoding, socket paths and peer credentials, recovery files, process runtime,
-- the manager's dispatch and the command line. Of the storage: SQLite itself, its files, backup,
-- migration and maintenance, the requests outside the reducer path (retention and the other
-- policy, the legacy commit of a write set, snapshots, reviews, the catalogue and the runners). A
-- result on the storage therefore names what may happen in between: requests of the reducer path
-- (contexts, writes, reconciliations, retirements, registrations) and restarts, or also any change
-- that removes no fact (Keeps of Storage/Receipts/Growth, Reaches of Coordinator/Commit/World);
-- retention and the restoring of a backup remove facts. The coding of columns as bytes is left out
-- too. Of the coordinator: the pool of permits behind a submission, and the deletion of a spooled
-- file once its receipt is known.
pub mod Common
pub mod Protocol
pub mod Domain
pub mod Ingestion
pub mod Ipc
pub mod Storage
pub mod Coordinator
