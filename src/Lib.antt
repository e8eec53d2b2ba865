-- ===== src/Lib.antt =====
-- The workspace `without`: packages of a Python library for services, each under packages/.
--
-- The parts that are modelled, and the files that model them:
--
-- Web: packages/without_web/src/without_web/{converters,patterns,trie}.py. Web.Converters and
-- Web.Patterns are the segments of a pattern; Web.Trie.Nodes, Web.Trie.Build and Web.Trie.Walk are
-- `Node`, `build` with `_insert` and `_freeze`, and `walk` with `_walk` and `_found`. What a converter
-- does to a text is the parameter `call`.
--
-- Durability: packages/without_durability/src/without_durability/{interfaces,memory}.py.
-- Durability.Checkpointer is `MemoryCheckpointer`, a function per method, which takes the store and
-- returns it beside the result or the exception; Durability.Scheduler is `MemoryScheduler` in the same
-- way; Durability.SplitDurable is the pair of the two and `claimed`. Durability.Values and
-- Durability.InboxKey are the values they share and `inbox_key`. The codec is a record of two
-- functions, and an effect is a function on the store's data; either may raise. Each asynchronous
-- method runs as one step, since none of them awaits in the middle of a change; the one that waits,
-- `next_ready`, takes what other tasks do meanwhile as a function. Clock readings are arguments, in
-- ticks. `Ops` of either store is the list of the calls that change it, and what a run of calls does.
--
-- Durability.Stepwise is packages/without_durability/src/without_durability/stepwise.py: the methods of
-- `Run` in Steps and Inbox, `leaves`, `unwound`, `stopped_at` and `resume` in Outcomes, `extending` in
-- Extending. A method takes the run, with the store of Checkpointer and a world that stands for
-- everything else, and returns it beside the result or the exception. An effect, an `extend` and a
-- workflow's function are parameters; Stepwise.Program is the workflows that are written with `step`,
-- `transact`, `sleep` and `awaiting`, as values. A cancellation is a Boolean of the call: it comes while
-- a record is on its way to the store, or it is what the effect raises. `datetime.isoformat` and
-- `fromisoformat` are a record of two functions. A group of exceptions is a tree.
--
-- Asgi: packages/without_asgi/src/without_asgi/{headers,selection,sse}.py. Asgi.Bytes is the part of
-- `bytes` that they use, Asgi.Headers the helpers on header fields, and Asgi.Selection is
-- `selection_for` with all it calls. What a field reads as when it is taken for a date is the
-- parameter `date_of`. Asgi.Sse is the event stream format on texts, as lists of code points: Frames the
-- frames with their refusals and `encode_event`, Parser `parse_events_with_directives` with `handle`
-- and `_field`, and Served `event_stream` and `with_heartbeat`. The UTF-8 codec is a parameter, the
-- `Decoder` of Parser, and how the sources are closed is not modelled.
--
-- Dag: packages/without_dag/src/without_dag/{graph,execution}.py. Dag.Graph is the builder `Graph` with
-- `of`, `node` and `build`, `Plan.of`, and the seeding of a run. A handle is the key that it carries;
-- `node` does not check whose handles it is given, in the model as in the code.
-- Dag.Run is `drive` and `evaluate`: `fill` is a round of the inner loop with `release_dependencies`,
-- `complete` what follows a completion, and Dag.Run.Steps the relation of the states that a run reaches
-- with what it has yielded, where any running node may complete next with any result. The sorter,
-- `graphlib.TopologicalSorter`, is a parameter, Dag.Sorter, with what its documentation promises, the
-- errors of `prepare` and `done` included; the
-- cancelling of what still runs when the caller closes a run, or a node raises, is not modelled.
--
-- Cli: packages/without_cli/src/without_cli/{binding,sources}.py, with the descriptions of tokens.py and
-- commands.py that they read. Cli.Sources is `from_sources`, Cli.Scan `_scan`, and Cli.Binding `_merged`,
-- `_assigned` and `parse_argv`, over words as lists of code points. `parse_argv` recurses on the tree of
-- levels. Cli.Extractors is the cardinalities, `option`, `flag` and `argument` of tokens.py, with
-- `parse_boolean`, Cli.Declarations the checks of a declared level in commands.py, and Cli.Commands is
-- `command` and `group` with their `resolve`, over actions that a handler and a state make of values. An
-- arm's `resolve` is a function that the arm holds, a message is a constructor with the names in it, and
-- a path stands for its usage. The environment and the files are dicts that were read.
--
-- Numbers are natural numbers without a bound, as Python's are; the width that `inbox_key` is written
-- in holds numbers below 10 ^ 20, and the statements on keys say so. All recursion is on the structure
-- of its argument, but for three: the width of a number's digits recurses on a count that its comment
-- shows to be enough, the digits of a reconnection time on one more than the number, and the scan of
-- entity tags on the length of the bytes, of which a round takes one at least.
--
-- Not modelled: the stores on Redis, Postgres and SQLite, whose behaviour is their server's; the worker
-- over a store; the router and the handlers over the trie; the rest of the ASGI package;
-- the HTTP server and client; streams, asynchronous helpers, HTML, logging and configuration; of the
-- command line, `count`, the usage and the runtime.
pub mod Asgi
pub mod Cli
pub mod Dag
pub mod Durability
pub mod Prelude
pub mod Web
