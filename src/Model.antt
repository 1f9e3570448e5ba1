-- ===== src/Model.antt =====
-- vrp/model.py: the domain model, with the checks that refuse a state the specification forbids.
-- Every integer field is a ℤ, as the source types it; a check is the `__post_init__` of its class.
pub mod Window
pub mod Stop
pub mod Order
pub mod Vehicle
pub mod Matrix
pub mod Instruction
pub mod Problem
pub mod Plan
pub mod Travel
pub mod Service
