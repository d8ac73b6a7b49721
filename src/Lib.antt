-- ===== src/Lib.antt =====
-- A model of the Python agent of this repository, which turns a player's chat into commands for a
-- Minecraft bot. Paths below are from the repository's root.
--
-- Parts. A chat waits in the queue (ChatQueue) for the worker, which works on one at a time. Working
-- on it leads to calls of the actions (Actions), each of which is validated, numbered, logged and
-- handed to the WebSocket bridge (Transport), to the building service (Building), which plans a
-- house over many calls, and to the tunnel mode (Tunnel), which digs through the server's HTTP
-- bridge. For a chat (ChatPipeline) the language model makes a plan, which is carried out step by
-- step (Planning): a step goes to the first of a chain of handlers that takes it, one of which hands
-- it to the action graph (ActionGraph). A step that fails opens a reflection (Reflection), which a file keeps over restarts,
-- and the rest is planned again, a bounded number of times.
--
-- - Prelude: tests on numbers, lists, dicts in the order of insertion and integers, with their
--   lemmas. Python: Python's dynamic values with the conversions (`bool`, `int`, `str.strip`, `get`)
--   that the program applies to data from outside.
-- - Building: python/services/building_service.py. Layout has `plan_block_placement`, Materials the
--   procurement and the reservations, Phases the checkpoint with `transition_phase`,
--   `advance_building_state`, `rollback_building_state` and `restore_checkpoint`.
-- - ChatQueue: python/runtime/chat_queue.py. The producers and the worker are one state; `step` is
--   what one of them does between two awaits, and a list of events is an interleaving.
-- - Tunnel: python/modes/tunnel.py, python/modes/tunnel_geometry.py and
--   python/heuristics/artificial_filters.py. `run` returns how the mode ends and what it asked for.
-- - Actions: python/actions/. Dispatch is `ActionDispatcher`, Validate the checks of arguments,
--   Commands the fifteen commands, Hybrid `execute_hybrid_action`.
-- - Transport: python/bridge_ws.py. `send` returns its result with what is seen from outside.
-- - HttpClient: `_request` of python/bridge_client.py, by which the tunnel mode reaches the server.
-- - Reflection: python/memory.py (Entry, Memory) and python/services/reflection_store.py (Store).
-- - Planning: python/orchestrator/. Directive is directive_utils.py with the plan of
--   python/planner/models.py, Steps action_step_executor.py with
--   python/services/movement_service.py, Handlers and Executor directive_executor.py with
--   `HybridDirectiveHandler.execute` of python/runtime/hybrid_directive.py, Recovery
--   recovery_coordinator.py with python/runtime/reflection_prompt.py, Run plan_executor.py.
-- - ActionGraph: python/runtime/action_graph.py and action_graph_builder.py. Skills has the nodes for
--   skills and roles (with python/orchestrator/skill_detection.py), Move
--   python/runtime/move_handler.py, Equip and Mining the nodes of those names (with
--   python/runtime/inventory_sync.py and the choice of a pickaxe of python/chat_pipeline.py), Build
--   python/runtime/building_plan_processor.py, Graph the edges and the walk.
-- - ChatPipeline: `run_chat_task` of python/chat_pipeline.py, what is done for one chat, with
--   `maybe_trigger_autorecovery` of python/runtime/minedojo_handler.py.
--
-- A computation of Planning, ActionGraph or ChatPipeline is the list of its effects with its value,
-- or with none where an exception leaves it (Prelude.Traced). The effects are the calls that reach other parts,
-- what is written to the memory and what is appended to the backlog.
--
-- What comes from outside is a parameter: the answers of the bot and the server by the step or the
-- number of the request, the outcome of an attempt to connect, how `_process_task` ends, the JSON
-- codec, new ids and the time; in Planning and ActionGraph also the classification of texts, the
-- language model and the switching of roles. Nothing is assumed of them but where a theorem says so.
--
-- Loops recur on what they count down: the tunnel on the steps that are left, a send on the attempts
-- that are left, the restoring of reflections on the list of entries. The loop of a send has a value
-- for its end without a return. An HTTP request recurs on fuel, one more than its retries. A run
-- of a plan recurs on fuel, one more than the depths that are left. The walk over the action graph
-- has fuel for six nodes, the longest way. A task to equip, inside a mining step, carries out no
-- other task.
--
-- Numbers: sizes, counts and times are natural numbers where the source never makes them negative,
-- and integers otherwise. Times are milliseconds. A float is its integer part and whether it is 0;
-- infinities and NaN are left out. `int(text)` reads ASCII digits. A missing status of a bridge error
-- is 0.
--
-- Not modelled: the language model with its prompts and the graphs that call it; perception, the
-- detection tasks and the messages on backlogs, which are still open; the dashboard and the servers;
-- log lines other than the payloads that the dispatcher masks, and the records of structured steps; the
-- texts of errors in Transport and HttpClient; task cancellation; objects that two holders share, of
-- which a model's record is a copy; and the programs at the other ends (node-bot, bridge-plugin).
pub mod Prelude
pub mod Python
pub mod Building
pub mod ChatQueue
pub mod Tunnel
pub mod ActionGraph
pub mod ChatPipeline
pub mod Actions
pub mod Transport
pub mod Reflection
pub mod HttpClient
pub mod Planning
