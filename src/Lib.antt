-- ===== src/Lib.antt =====
-- MasterAgent: a chat gateway that answers questions of several topics. Each topic is configured by
-- a YAML file and names its plugins: one that authorizes, one that enriches the question, one that
-- classifies it, and adapters that ask downstream services. A request runs a graph of nodes over a
-- shared state: load_session, auth_node, then reject_node, or enrich_node, intent_node and one
-- adapter, and at last persist_node. What the nodes emit is relayed as the events of the request.
--
-- The parts, with the files that model them (paths of the repository, under src/ma unless another
-- root is named):
--   Common, Value   lists, exceptions as values (`Outcome`), Python's dynamic values and its `==`.
--   Repo            core/repo: the rows of both tables, as db/versions/0001 creates them, and the
--                   methods of SessionRepository (Repo/Sessions) and MessageRepository
--                   (Repo/Messages) as actions on the database. The SQL texts are those of the
--                   methods; JSON columns are held decoded, and Repo/Rows says how they are
--                   written and read. Repo/Sql is sql_executor.py, with its loader
--                   sql_loader.py in Repo/Sql/Loader.
--   Plugin          core/plugin/registry.py (Plugin/Registry), plugins/auth (Plugin/Auth),
--                   plugins/enrich (Plugin/Enrich), plugins/intent (Plugin/Classifier) and
--                   plugins/adapter (Plugin/Adapter, with a module for each of the three).
--   Graph           core/graph: the state and how updates are merged (Graph/State), events and
--                   frames (Graph/Events), node_wrappers.py (Graph/Nodes), builtins.py
--                   (Graph/Builtins). Graph/Trace is the record of what a node does to the outside:
--                   events, waits and calls of the plugin.
--   Topic           core/topic: config.py (Topic/Config), registry.py (Topic/Registry) and
--                   `_resolve_env` of compiler.py (Topic/Environment).
--   Chat            core/chat_service.py: ChatService.handle (Chat) and _build_graph (Chat/Flow),
--                   with the record CompiledTopic of core/topic/compiler.py, and TopicCompiler
--                   itself (Chat/Compiler). Chat/Walk is what LangGraph documents of a run, and
--                   composes the nodes into whole requests.
--   Api             api/ws.py: the handshake of a WebSocket (Api/Socket/Handshake) and its connection
--                   (Api/Socket); api/rest.py: what is stored, as shown (Api/History); api/sse.py:
--                   the opening of a stream and its frames (Api/Stream), which a client reads as
--                   Api/Stream/Reader says.
--   App             main.py, infra/db.py, api/health.py and core/plugin/bootstrap.py: the start and
--                   the end of the process (App, App/Startup); infra/logging.py (App/Logging);
--                   cli/replay.py (App/Replay).
--   Samples         tests: the theorems at concrete inputs.
--
-- How they interact: Chat looks the topic up in Topic/Registry, stores the question through Repo,
-- describes the graph of the nodes of Graph, and relays what the run of that graph emits. The nodes
-- call the plugins, which are functions of the state; load_session and persist call Repo. A
-- connection of Api runs requests of Chat as tasks.
--
-- Conventions. A Python exception is a value of `Exn`; what a function did before it raised is kept.
-- Statements that several connections may interleave take what the others do as an argument
-- (`get_or_create_amid`); all else runs alone. Times and ULIDs are arguments. A confidence is
-- counted in hundredths. The retry loops recurse on the rounds that are left, which is
-- `max_attempts` at first. Fuel is taken by `substitute` alone (Topic/Environment): the length of the
-- text, which is enough since each position takes one unit at most. All else recurses on data.
--
-- Parameters. LangGraph is `compile` and `astream_events` of a graph. Of them only Chat/Walk assumes
-- something, by name: `FollowsWalks` says that a run that has one way on at every node, and fewer
-- than the 25 steps that LangGraph allows by default, calls the nodes on that way, merges what they
-- return and streams what they dispatch; an interpreter that does so is in Samples/Walks. `json`
-- gives a parsed value or its error. Python's `repr` and `str` are the record `Formats`. A plugin
-- class is what `build` makes of it. pydantic's model of `biz_params` is a function. httpx, httpx_sse
-- and websockets are what a request gets and how the reading ends; LangChain is the answer to a
-- prompt; asyncpg's `create_pool` gives a pool or raises.
--
-- Not modelled: the dispatch of an event is taken not to raise, and so are the sends of a WebSocket;
-- spans do nothing; the database does not fail but for the unique keys. `TopicRegistry.ids` and
-- `SqlLoader.keys` only serve logs; the repositories do not use the SQL loader. create_app's wiring of
-- FastAPI, configure_tracing, the set-up of structlog and the parsing of command lines only call
-- third-party libraries. When a client leaves in the middle of an answer, the rest of
-- the task's request is not followed.
pub mod Common
pub mod Value
pub mod Repo
pub mod Plugin
pub mod Graph
pub mod Topic
pub mod Chat
pub mod Api
pub mod App
pub mod Samples
