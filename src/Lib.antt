-- ===== src/Lib.antt =====
-- Models and theorems for disintegrate, a library for event-sourced applications: events are kept in a
-- log, states are computed by replaying the events that a query selects, and a decision appends new
-- events unless the events it was decided on have changed meanwhile.
--
-- Parts and files:
-- - Prelude: names of the libraries, Boolean tests, list helpers, integers and results.
-- - Identifier (disintegrate/src/identifier.rs, disintegrate/src/domain_identifier.rs): identifier
--   values and sets of domain identifiers (`insert`, `get`, `domain_identifiers!`); Identifier/Names has
--   the validation of identifiers.
-- - Event (disintegrate/src/event.rs): schemas, the trait `Event`, persisted events.
-- - Stream (disintegrate/src/stream_query.rs): `StreamFilter` in Stream/Filter, `StreamQuery` in
--   Stream/Query; what queries select is in Stream/Laws.
-- - State (disintegrate/src/state.rs): `StatePart` and tuples of state parts (`MultiState`); State/Part
--   is about one part, State/Multi and State/Tuple about tuples, State/Snapshots has their snapshots and
--   State/Counters is about the counters that these do not keep.
-- - EventStore (disintegrate/src/event_store.rs): the trait, and its contract `KeepsLog`.
-- - StateStore (disintegrate/src/state_store.rs): `load` and `persist`; StateStore/Replay relates a load
--   to the log; StateStore/Snapshot is the load with snapshots.
-- - Decision (disintegrate/src/decision.rs): the decision maker; Decision/Serial is about decisions that
--   other clients interleave with.
-- - Postgres/Criteria (disintegrate-postgres/src/event_store/query.rs): `CriteriaBuilder`, as a syntax
--   tree and as text; Postgres/Criteria/Rows is what the tree selects, Postgres/Criteria/Text how the
--   database reads the text (`Reads`, the grammar of its conditions), Postgres/Criteria/Rendered that it
--   reads as the tree, Postgres/Criteria/Exact and Postgres/Criteria/Agreement compare both with `StreamQuery::matches`.
-- - Postgres/Append (disintegrate-postgres/src/event_store.rs, and append.rs beside query.rs): the two
--   appends on the tables `event_sequence` and `event`.
-- - Postgres/Session (the same files, and fn_event_store_begin_epoch.sql and
--   fn_event_store_current_epoch.sql in disintegrate-postgres/src/event_store/sql): several clients whose
--   statements interleave. Keeps, Served, Kept, Batches, Effects and Consistent in it are about what
--   every statement leaves to the other clients; Guard and Validated about the check of an append;
--   Epoch, Advance and Drain about the epoch; Sequential about `append` as a whole; Single about the
--   ids; Locks about the keys of the locks.
-- - Postgres/Reading (`stream` of disintegrate-postgres/src/event_store.rs): Order, Delivery are about
--   one read; Members, Handled and Cursor about a listener that reads while clients append.
-- - Postgres/Listener (disintegrate-postgres/src/listener.rs): one executor of a listener, and
--   Postgres/Listener/Progress about its runs. Postgres/Listener/Tasks has the registration and the
--   start of listeners and the loops of their tasks (`start`, `spawn_task`, `ExecutorWaker`); Starting,
--   Ends, Shutdown, Wakes, Parts and CatchUp in it are about them.
-- - Postgres/Snapshotter (disintegrate-postgres/src/snapshotter.rs): load and store of a snapshot.
-- - Postgres/Indexer (disintegrate-postgres/src/listener/id_indexer.rs): the indexer of identifiers;
--   Postgres/Indexer/Columns is about the columns that it fills.
-- - Derive (disintegrate-macros/src/event.rs): what `#[derive(Event)]` generates, the schema (`impl_enum`,
--   `impl_struct`), the name and the domain identifiers; Derive/Streams (event/stream.rs beside it) has
--   the streams and their conversions, Derive/Queries (disintegrate-macros/src/state_query.rs and the
--   macros of disintegrate/src/stream_query.rs) the queries. Naming, Declared, Allowed, Typing, Events,
--   Selection and Filters in it are about them.
-- - Testing (disintegrate/src/testing.rs): the test harness; Testing/Agreement compares it with the
--   decision maker; Testing/Follow is about the states that it replays.
-- - Slices (disintegrate/src/utils.rs): the constant functions on texts and slices; Slices/Order,
--   Slices/Sorting, Slices/Unique and Slices/Texts are about them. Slices/Checked has those that can
--   panic, which Slices/Panics and Slices/Peaceful are about.
-- - Banking (examples/banking/src/domain.rs): the banking example, as a client of the parts above.
-- - Courses (examples/courses/src/domain.rs and the files of examples/courses/src/domain): the courses
--   example; Courses/Streams has what its macros derive, Courses/Subscription the subscriptions,
--   Courses/Administration the courses and students; Courses/Subscription/Limits is about the limits.
--   Courses/Roster is an abstract account of who is on which course: Counting is about it, Takes about
--   what one event does to the states, Agreement, Runs and States about the states along a log,
--   Decisions and Safety about logs that the decisions have written. Courses/ReadModel
--   (examples/courses/src/read_model.rs) is the listener that keeps the table of the courses; Statements
--   and Redelivery are about events that come twice, Seats and Shown about what the table shows.
-- - Cart (examples/cart/src/event.rs and examples/cart/src/cart.rs): the cart example; Cart/Streams has
--   what its macros derive, Cart/Decisions its states and decisions; Cart/Laws is about them.
-- - Tests: runs on small inputs.
--
-- How the models are built: an event id is a natural number (a `BIGINT` that the database counts up from
-- 1; its overflow is not modelled). A panic is `none` or `panicked`. The counter of applied events wraps
-- at 2 ^ 64. An `i32` of the banking example is an integer with checked sums. What other clients do
-- between two steps of an operation is a parameter `between`, a function on the storage. An SQL statement
-- is one step on the tables. In Postgres/Session a client is between two statements and a run is any list
-- of statements of the clients; a row is visible when its id is taken, an `UPDATE` is seen at once (its
-- rows stay locked until the commit), no client is lost between its `UPDATE` and its commit, and no commit
-- fails. A text of criteria with a quote in a value, which the code does not escape, is an error here. No model
-- needs fuel, except for the printing of numbers, where n + 1 rounds are enough as each divides by 10.
--
-- In Postgres/Listener/Tasks the timers and the choices of `select!` are a list of rounds, each with the
-- storage that it sees and the fault of the database that meets it. In Derive a declaration is given by
-- what the macros read of it, and the generated code by what it computes; an error of the build is `err`
-- or `panicked`. The logs of Courses/Roster are written by one decision after the other; Decision/Serial
-- is about decisions that interleave.
--
-- Not modelled: what the database makes of a quote in a value, faults of the database connection in
-- appends and reads, commits that fail, ids that are drawn but not yet
-- visible, the order of lock waits, the reconnection of the notification listener, the setup of tables,
-- the parsing of attributes and the tokens of the macros, the serialization formats, and the services of the examples. Hashes and the JSON form of a state
-- (`Codec`), the pattern of identifiers (`is_match`), and the conversions of field values and the
-- identifiers of payloads in Derive are parameters.
pub mod Prelude
pub mod Identifier
pub mod Event
pub mod Stream
pub mod State
pub mod EventStore
pub mod StateStore
pub mod Decision
pub mod Postgres
pub mod Slices
pub mod Derive
pub mod Banking
pub mod Cart
pub mod Courses
pub mod Testing
mod Tests
