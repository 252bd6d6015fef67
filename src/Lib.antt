-- ===== src/Lib.antt =====
-- Models and theorems for the Python core of the niche scoring service.
--
-- The service takes the signals that were collected for a metro (search demand, organic and local
-- competition, monetization, AI exposure, business profiles) and computes a score report: six
-- component scores, a gated opportunity score, a confidence with flags, and the strategy weights in
-- use. The signals are collected by planned tasks, which run in the order of their dependencies. A
-- lens weighs the scores of a market anew, filters the markets and ranks them; a refresh service
-- scores the cached markets again. A research loop proposes changes of the scoring, runs experiments
-- on them under a budget, and records what it learns in a knowledge graph; its tools come from
-- registered plugins.
--
-- Numbers. `Num` (Num/Order.antt) is the interface of the floats: the operations, and as a separate
-- record `IsOrdered` the laws that proofs use (a total order, monotone addition and multiplication by
-- a non-negative number, exact literals). IEEE doubles without NaN satisfy the monotone laws, because
-- rounding is monotone; no law of associativity or distributivity is assumed. `decimal m` is the
-- literal m / 10000. Num/Fixed.antt is an instance, fixed point with 4 decimals, that satisfies all
-- of them and on which the tests evaluate. `float(str)`, `int(str)` and `str(float)` are fields of
-- `Num`.
--
-- Signals (Signals.antt). A Python mapping with any values: an association list in insertion order,
-- with `get`, `update`, `float(...)`, `int(...)` and `bool(...)` as the scorers use them, and the
-- exceptions that they raise. A text is its list of code points.
--
-- Scoring (Scoring.antt and Scoring/) is src/scoring/*.py of the repository:
--   Config, Normalization   src/config/constants.py, src/scoring/normalization.py
--   Competition, Market     the component scorers compute_*_score
--   Composite, Confidence   composite_score.py, confidence_score.py
--   Strategy, Engine        strategy_profiles.py, engine.py
-- Each scorer is a function that reads its signals, with the exceptions of the conversions, and a
-- formula on what was read. The proofs are in Bounds, Monotone, Gates, Opportunity, Flags, Penalties,
-- Profiles, Report, Batch and Directions. A weighted sum adds one by one, as Python 3.11 does.
-- Benchmarks and V2 are benchmark_repository.py and v2.py: the scores relative to a benchmark cell,
-- whose repository is a parameter; the proofs are in Relative.
--
-- Research (Research.antt and Research/) is src/research_agent/loop/ralph_loop.py and the part of
-- src/research_agent/memory/graph_store.py that works in memory. Backlog has the hypotheses, Graph the
-- nodes and edges, Loop the method `run` with its stop tests and its error paths. The experiment
-- runner and the evaluator are parameters, which return or raise; they do not change the hypothesis
-- that they are given. Reading and adding the cost of an experiment may raise too, outside the error
-- handling; the scores of an evaluation are numbers. Priorities are not negative, and writing files
-- does not fail. `loop_from` recurses on the iterations that are left of `max_iterations`, so
-- there is no fuel beside the bound of the code. Metadata, timestamps and logging are left out, and
-- the writes of the file store are events of the state. Listing has the listings of the nodes and the
-- edges, the updates, the neighborhood and the summary, Queries the evidence for a node, Lineage the
-- search along the derived_from edges: its iterations are bounded by the number of edges and one
-- more, which is enough since an iteration uses up an id of the stack or the edges out of it. A query
-- is asked of an id that is in the graph, and an update changes no id.
--
-- Cache (Cache.antt and Cache/) is src/clients/dataforseo/cache.py: the response cache with its TTL,
-- its bound on the entries, least recently used first, and its bound on the size of a value. The
-- hash of the key, the clock and the chunks of the JSON encoder are arguments.
--
-- Classification (Classification.antt and Classification/Rules.antt) is src/classification: the
-- difficulty tier, which uses the resolved strategy weights of Scoring, the archetype of the search
-- results and the AI exposure. Their signals are the nested blocks of a metro.
--
-- Costs (Costs.antt and Costs/) is src/clients/dataforseo/cost_tracker.py: the cost records of the
-- API calls by scoring run, their aggregation by endpoint, and the flush to the database, whose
-- client, where there is one, is a function that returns or raises.
--
-- Refresh (Refresh.antt and Refresh/) is src/domain/services/explore_refresh_service.py: the choice
-- of the targets, the run that scores them, and its counts. The store and the market service are
-- functions that return or raise, and their calls are events. The scores of a run arrive in any
-- order, which is an argument; the semaphore has at least one place. How a call ends depends on the
-- call alone. The calls of a run that raises are kept, and those of its coroutines that go on are
-- among them.
--
-- Collection (Collection.antt and Collection/) is src/pipeline/task_graph.py and, of
-- src/pipeline/batch_executor.py, the execution of a list of tasks. TaskGraph has the dependency
-- levels; the loop over the queue runs on as much fuel as there are tasks, which is enough because
-- each round uses up an id. Kahn and Levels have its invariant, Acyclic what is accepted. Executor
-- has the dispatch of a task to the client, whose calls reply, raise or time out, and what each end
-- leaves in the state. Plan and its child modules are src/pipeline/collection_plan.py: the tasks of
-- a request, whose numbers are formatted by a parameter.
--
-- Lenses (Lenses.antt and Lenses/) is src/domain/lenses.py and src/domain/scoring.py: the lenses, the
-- score of a market under a lens, which uses the opportunity score of Scoring, and the ranking of a
-- batch. Python's sort is an insertion sort that keeps the order of equal scores. Projection and
-- Strategies are src/domain/strategy_projection.py, the scores of the cached rows of the strategies.
--
-- Discovery (Discovery.antt and Discovery/) is src/domain/services/discovery_service.py and
-- src/domain/queries.py: the filters on cities and services (Predicates), the scores of the markets
-- that are left, by a strategy projection or by a lens of Lenses, the ranking for a portfolio and the
-- page. The market store is the list of markets that it returned. Found and Portfolio have the proofs.
--
-- Keywords (Keywords.antt and Keywords/) is src/pipeline/keyword_deduplication.py,
-- src/pipeline/intent_classifier.py and src/pipeline/keyword_expansion.py: the normalized keywords, the
-- merging of candidates, the intents by rules (Intent), the language model and the keyword service,
-- which are functions that return or raise (Sources), and the sorted result (Expansion). Which of the
-- two tasks ends before the timeout is an argument. Case and white space are those of ASCII.
--
-- Plugins (Plugins.antt and Plugins/) is the registry of src/research_agent/plugins/base.py: the
-- registration of tool plugins and the routing of a call. A plugin is a record of its name, its tools
-- and its calls.
--
-- Recipes (Recipes.antt and Recipes/) is src/research_agent/recipes/base.py and runner.py: the registry
-- of the recipes, and the runner, whose rounds recurse on what is left of `max_tool_rounds`. Tools are
-- executed through Plugins. Conversation is the exchange of messages that the rounds stand for. Json
-- has the search for the JSON object in a response; json.loads, the model and the report plugin are
-- functions that return or raise.
--
-- Not modelled: the clients' network code, the database, the HTTP routes, the prompts and agents of
-- the language models and the report texts, which are input and output or calls of services; the
-- tasks that src/pipeline/batch_executor.py derives from the first results, the extraction of signals
-- from raw search results (src/pipeline/signal_extraction.py, serp_parser.py) and the orchestrator,
-- which composes the parts with those clients; the command-line scripts; and the web applications,
-- which are not Python.
pub mod Prelude
pub mod Num
pub mod Signals
pub mod Scoring
pub mod Research
pub mod Keywords
pub mod Lenses
pub mod Plugins
pub mod Recipes
pub mod Refresh
pub mod Collection
pub mod Cache
pub mod Costs
pub mod Discovery
pub mod Classification
