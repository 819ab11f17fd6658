-- ===== src/Training.antt =====
-- The data steps of tools/train_phone_routing.py, tools/train_combined_routing.py and
-- tools/train_general_routing.py, with the checks of tools/decision_training_utils.py. A row is of
-- any type with an equality, that of Python's dicts, and a route.
pub mod Carve
pub mod Mix
pub mod Isolation
pub mod Prepare
pub mod Adapter
pub mod Fit
pub mod Metrics
