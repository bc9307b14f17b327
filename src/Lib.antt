-- ===== src/Lib.antt =====
-- Verification of the alpha runtime's execution subsystem, the path of a trade command from the user's
-- key press to the orders at the broker and of the broker's answers back into the books, of its shadow
-- position monitor, of the account risk engine with its order engine, of the thesis engine, of the
-- research on interactions with price levels, of the volume profile, and of the event bus between them.
--
-- A `TradeIntent` comes to the coordinator, which asks the readiness gate and the idempotency store
-- whether it may act, the market store for a snapshot, and the risk evaluator for a plan: a bracket of
-- an entry, a stop and targets. It rejects the plan, holds it for a second key press, or hands it to the
-- order router. The router answers by order updates and fills, from which the coordinator keeps
-- positions and working orders, the exposure that the evaluator measures the next intent by. Apart from
-- this, the position monitor follows the scored setups, and reports the trades that it would make.
--
-- The risk engine gives a triggered setup a sized plan for the default account, unless the account's limits
-- or its kill switch stand against it, and hands the plan to the order engine. Fills and the broker's P&L
-- come back to it; when a trigger is met it halts the account until the next day, and flattens it.
--
-- The thesis engine keeps a thesis for each symbol, long or short, and a flip to the other side. A bar's
-- signals and the flow of the last trades raise or lower its confidence; from watching it comes to
-- building, and from there, where its conditions are met, to ready with a plan. It may expire, or be
-- invalidated, when its flip takes its place.
--
-- The event bus gives each subscription a queue and a worker. A publisher goes from one matching queue to
-- the next, and waits where one is full, or drives its oldest event out.
--
-- The interaction engine builds frames of a bar and its levels, ends a symbol's episodes at a new session
-- or a gap, and lets the episode manager open, continue and close an episode for each level; completed
-- episodes go to the writer, which buffers them by symbol and date and stores them as parts.
--
-- The files, with the sources that they model (under src/alpha):
--   Base                      tests, integers, dicts and lists that every part shares
--   Execution/Enums           models/enums.py
--   Execution/Models          engines/execution/models.py, and Models/Orders: models/order.py
--   Execution/StateMachines   engines/execution/state_machines.py, the tables and guards; Intents and
--                             Orders are about routes of any length through the tables
--   Execution/Readiness       engines/execution/readiness.py
--   Execution/Invariants      engines/execution/invariants.py; Guards is about what the guards let pass
--   Execution/Risk            engines/execution/v1_risk.py: Checks (the flags), Pricing (tick grid, side and
--                             price), Evaluator (`evaluate`); Flags, Decision, Bracket, Limits and
--                             Rounding are about them
--   Execution/Stores          engines/execution/stores.py
--   Execution/Coordinator     engines/execution/coordinator.py: State (attributes and small methods), Submit
--                             (`submit_intent`, `_submit_plan`), Confirm (`confirm_intent`,
--                             `cancel_intent`), Callbacks (`_on_fill`, `_on_order_update`); Steps has the
--                             step relation of all calls, and Gates, Statuses, Exposure and Confirmation
--                             are about any history of them
--   Execution/PaperRouter     engines/execution/paper_router.py: calls and stretches of the simulated fill; Orders
--                             has its state and its orders, Laws is about any order of the stretches
--   Execution/Projector       engines/execution/projector.py; Events has the histories of events, Current is
--                             about the snapshots in them
--   Execution/Tests           concrete inputs, and the theorems at them
--   Position                  engines/position/engine.py: Model (records), Watchlist (the handlers of setups, thesis
--                             and quotes), Trades (entry and exit); Exits has the histories of events and
--                             what open positions are in them, Signals is about the published signals,
--                             Selection about the setup that is entered, Tests has concrete inputs
--   Research/Texts            the session ids of research/interaction, as texts
--   Research/Geometry         research/interaction/geometry.py; Laws is about distances, sides and spans
--   Research/Model            research/interaction/models.py, config.py and the manager's state
--   Research/Opening          how research/interaction/episode.py opens an episode
--   Research/Episodes         the rest of it: `process` and its handlers; Closing (`_close` and the calls that end
--                             many), Sequence (`_derive_close_sequence`); Runs is about the latter, Records
--                             about a summary and its bars, Kept and Kept/Steps about the manager over any
--                             calls, Ends about what a session's end closes
--   Research/Writer           research/interaction/writer.py; Laws is about what it holds, Parts about the files'
--                             paths, Failures about a flush that fails half way
--   Research/Levels           the levels that research/interaction/engine.py finds for a bar
--   Research/Engine           the rest of it; Sessions, Settled and Bars are about the episodes' sessions over any
--                             events, Total about exceptions
--   RiskEngine/Model          models/risk.py and the position book's records
--   RiskEngine/Book           `_apply_fill` of engines/risk/engine.py; Laws is about its count, Flat about closing fills
--   RiskEngine/Plans          `_evaluate`; Laws is about the plans that it gives
--   RiskEngine/Handlers       the handlers of an account, and of a setup; Armed, Counts and Halted are about any
--                             order of fills, syncs and rollovers
--   RiskEngine/Accounts       the handlers over all accounts
--   RiskEngine/Orders         engines/order/engine.py; Laws is about the open orders and the adapter
--   VolumeProfile             features/volume_profile.py: bins, distributions, the value area; Nodes has the high and low
--                             nodes and their merge, Build `_finalize`, `build` and `build_from_trades`;
--                             Volumes holds the dicts, Conserved is about their totals, Area about the value
--                             area, Poc about the point of control, Merges about the nodes, Whole about the
--                             profile
--   Thesis/Model              models/thesis.py and what engines/thesis/engine.py reads of its inputs
--   Thesis/Flow               `_compute_tick_flow` and `_session_avg_tps` of engines/thesis/engine.py
--   Thesis/Long, Thesis/Short   the two updates, signal by signal; their Laws are about what they keep
--   Thesis/Lifecycle          `_update_thesis`, `_advance_state` and the plans; Ages is about one update, Waits
--                             about many, Confidence about its bounds, Prices and Plans about the plans
--   Thesis/Detection          `_detect_thesis` and `_build_flip_candidate`
--   Thesis/State, Thesis/Engine   the engine's attributes and handlers; Live and Runs are about the theses over
--                             any events, Stalls about a bar whose ATR is 0
--   EventBus                  core/event_bus.py; Subscriptions has one queue and its worker, and Queues and History
--                             are about it; Steps and Sound are about all queues over any steps, Waits about
--                             publishers across an `unsubscribe`
--   Research/Tests, RiskEngine/Tests, VolumeProfile/Tests, Thesis/Tests, EventBus/Tests   concrete inputs, and
--                             the theorems at them
-- A definition bears the name of the function that it models, without a leading underscore; a part of a
-- long function has a name of its own and says in a comment which part it is.
--
-- A method of the coordinator is a function from its collaborators' answers (`Env`), its arguments and
-- the state to the new state and the response; a response `none` is an exception that leaves the method,
-- with the changes it made before. A guard that raises returns its exception. What the coordinator calls
-- through a protocol (market store, account state, evaluator, router, clocks) is a parameter with no
-- hypothesis on it; the router's calls are recorded in order.
--
-- Amounts: a `Decimal` is an integer that counts units of 1/20000, so that quotients of ticks and
-- half ticks are exact; a product counts units of the product of its factors. Python's contexts of 28
-- digits are taken to be wide enough for the amounts, and the rounding to a tick is the default rounding
-- of `quantize`, half to even. A time is a number of microseconds; strings that are only compared are
-- numbers, but in Research, which joins and splits them, lists of code points; runtime order ids keep
-- their part before the first dash. In RiskEngine amounts count a unit so fine that the shares of an
-- account's size are whole, and an average price is a parameter. In VolumeProfile a bin is its number, and
-- the target of the value area and the bin of a merged node, computed in floating point, are
-- parameters. Recursion is on lists; only the loop of `_value_area` runs on fuel, the number of the bins around the point of control, which is
-- enough because each round takes one of them.
--
-- In Thesis floating-point numbers are a type with the operations that the engine uses, as a parameter
-- (`Floats`); its literals count hundredths. The prices of a plan count twentieths of the unit of the other
-- prices, so that a tenth of an ATR and 2.5 times a risk are whole. A flag with an update or a handler says
-- whether it went through or an exception left it. In EventBus a function is what happens between two
-- awaits, and any order of these functions is a history; a task is cancelled at once.
--
-- The interaction engine's calendar, registry and disk, the broker's answers to the risk engine and the
-- adapters of the order engine are arguments with no hypothesis on them but the ones that a theorem names.
-- A handler of the risk engine is one step, but for the sync of an account, whose stretches before and after its
-- wait for the summary are steps too, with any others in between. A part on disk
-- is replaced by a later one with its path; the run id in the path is the writer's own.
--
-- Not modelled: free texts (`explanation`, `detail`, log lines), the wording of exceptions, and
-- scheduling below the stretches between two sleeps. The rest of the market side (indicators,
-- setups, market states, scoring), storage, adapters, the API and the web client are other subsystems.
pub mod Base
pub mod Execution
pub mod Position
pub mod Research
pub mod RiskEngine
pub mod VolumeProfile
pub mod EventBus
pub mod Thesis
