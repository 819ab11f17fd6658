-- ===== src/Tests.antt =====
-- Concrete runs of the models: the cache simulator, the mixture and the replay.
mod Instances
mod Caches
mod Benchmarks
mod Readings
mod Comparisons
mod Evaluations
mod Mixtures
mod Replays
mod Trainings
mod Offsets
mod Datasets
