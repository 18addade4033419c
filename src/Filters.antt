-- ===== src/Filters.antt =====
-- env/app/subfilters.py: the conditions that a subscription puts on the body of an event.
pub mod Text
pub mod Json
pub mod Evaluate
pub mod Validate
pub mod Condition
