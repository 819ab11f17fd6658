-- ===== src/Lib.antt =====
-- Verification library of pocket-agents-lab: the Python programs of tools/ that prepare data for
-- the routing models, that measure them and that compare the measurements. The programs share no
-- state: each reads files, and writes files that the next one reads.
--
-- Prelude and its children hold the shared helpers: Boolean tests, lists over the native numbers,
-- membership, stable sorting, grouping by a key as a `defaultdict(list)` does it, and texts as
-- lists of code points.
--
-- Cache (tools/expert_cache_simulator.py). `LruCache`, `init` and `access` are the class LRUCache;
-- Cache.Predict has the three predictors, Cache.Layer `evaluate_layer`, whose loop is `steps` over
-- `step`, and the grouping of `main` (`evaluate`). A set is the list of its elements in the order
-- of iteration, which the parameter `SetOrder` fixes for `set(xs)`; a `Counter` is the list of its
-- elements with their counts. A rate is the pair of its numerator and denominator, since the
-- division is the last step. Trace files are read and results printed outside the model.
--
-- Random is the interface of Python's `random.Random`: a state that is seeded and passed on, a
-- shuffle that rearranges and a sample that chooses positions. Nothing else of it is used.
--
-- Mixture (tools/prepare_general_mixture.py). Mixture.Clean has `normalize` and `clean_pool`, with
-- the tables of Unicode as a parameter; Mixture.Split `stratified_split`; Mixture.Rounds the
-- round-robin of `weighted_sample`, and Mixture.Sample the rest of it, with floating-point numbers
-- as the parameter `Floats`. An exception is a `raise` of the type Result. `round(len(group) *
-- .10)` is taken as the rounding of the exact quotient, halves to even. The `while` of the
-- round-robin runs on fuel, one more than the rows to draw: each turn that finds a row adds at
-- least one. Mixture.Checks has the checks of `main` on the parts, and Mixture.Compose its steps
-- from the pools to the parts. The conversion of the sources' rows, the downloads and the files are
-- not modelled.
--
-- Replay (tools/replay_agent_pilot.py). Expected routes, the relevance guard, the parsing of a
-- reply, the scoring of a case and the loop over the cases; Replay.Cases has the test cases.
-- `str.lower`, white space and `json.loads` are the parameter `Python`; the replies of the model
-- are given. Latencies, the texts of errors, the prompts and the HTTP call are not modelled.
--
-- Training (tools/train_phone_routing.py, tools/train_combined_routing.py,
-- tools/train_general_routing.py, tools/decision_training_utils.py). Training.Carve has the
-- `carve_validation` of both programs, `carve_evenly` being the second one's; Training.Mix has
-- `weighted_mix`, with floating-point numbers as the parameter `Floats`. Of these the record
-- IsExact asks that min(a / b, 1.0) is 1.0 for 0 < b <= a and that round(n * 1.0) is n, which IEEE
-- arithmetic has for the sizes of lists. A row is of any type with an equality and a route.
-- Training.Isolation has `check_split_isolation`, and Training.Prepare the path of the rows through
-- the three `main` functions to the items that are trained on, with the checks in their order;
-- `build_dataset` is a parameter. Training.Fit has the check and the loading of the adapter, the
-- schedule of the trainer, the calibration and the manifest of train_phone_routing, with the
-- library's calls recorded as steps. Training.Adapter has `enable_existing_adapter_and_head` and
-- `count_trainable_params`; a model is its list of parameters, those of the head being marked,
-- since the head's tensors are also among the model's. Training.Metrics has
-- `compute_decision_metrics` and `decision_metrics_for_items`, with the floating-point numbers and
-- scikit-learn's F1 score as the parameter `Reals`.
--
-- Benchmark (tools/benchmark_decision_android.py). Benchmark.Telemetry searches the texts that adb
-- prints; a temperature is in tenths of a degree. Benchmark.Gate has the loop before each case, run
-- on a list of probes, which are what telemetry and the clock give each time round; `waiting`
-- stands for a list that ends before the loop does, and 182 probes ten seconds apart are enough for
-- it to end. Benchmark.Thinking removes the thinking tags, on fuel of the text's length, each round
-- of which takes at least a character, and finds the first JSON object. Benchmark.Choice has the
-- choice in the three modes and the guard, which is that of Replay. Benchmark.Run has the row of a
-- case and the loop over the cases: its result is the list of the reports that are saved, in order,
-- and how the program ends. What adb, the clock and the model do for a case is an argument
-- (`Attempt`).
--
-- Comparison (tools/analyze_comparison.py, tools/analyze_thinking_comparison.py). `cases_stats` and
-- `analyze` work on the rows of Benchmark.Run, all of whose members are there; Comparison.Thinking
-- has `per_category` and the conclusion of the thinking report. Percentages are numbers of the parameter `Percentages`.
--
-- Offsets (tools/gguf_expert_offsets.py). `extract_expert_offsets` over what the gguf package
-- reads: the pattern of the expert tensors' names, the byte ranges and the index.
--
-- Dataset (tools/build_phone_routing_dataset.py, tools/phone_routing_extra_queries.py). The queries
-- of each route are in a child of Dataset.Queries; `build_records`, the exclusion of the
-- development prompts (`clean_queries`) and the two loops of `main` are in Dataset, with the normal
-- form of a prompt as a parameter. The gold and the questions of a record, its text id, the
-- manifest and the files are not modelled.
--
-- Evaluation (tools/evaluate_phone_routing_model.py, tools/eval_phone_routing.py).
-- Evaluation.Intents has `_balanced_intent_dataset`, whose normal form of a text is that of
-- Mixture.Clean with the characters that are no white space for those of a word. Evaluation.Device
-- has the loop over the cases on the phone, with its two accumulators, and the final report.
--
-- Tests has concrete runs, with concrete values for the parameters.
--
-- Not modelled: the training and evaluation runs, which are calls of third-party libraries; the
-- requests to the model and the text of the reports; the scripts of benchmarks/; the Kotlin
-- application.
pub mod Benchmark
pub mod Cache
pub mod Comparison
pub mod Dataset
pub mod Evaluation
pub mod Mixture
pub mod Offsets
pub mod Prelude
pub mod Random
pub mod Replay
pub mod Tests
pub mod Training
