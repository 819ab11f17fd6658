-- ===== src/Evaluation.antt =====
-- The evaluation of routing models: tools/evaluate_phone_routing_model.py (Intents) and
-- tools/eval_phone_routing.py (Device).
pub mod Intents
pub mod Device
