-- ===== src/Benchmark.antt =====
-- tools/benchmark_decision_android.py: the readings of the phone, the thermal gate before each
-- case, the route that a reply chooses in each mode, and the run over the cases with the report it
-- saves. The texts that adb prints, the replies of the model and the clock are arguments.
pub mod Telemetry
pub mod Gate
pub mod Thinking
pub mod Choice
pub mod Run
