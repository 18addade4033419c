-- ===== src/Worker.antt =====
-- env/app/worker.py: the outbound worker. `Claim` takes the next copy, `Record` writes the result of
-- its call.
pub mod Claim
pub mod Record
