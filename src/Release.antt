-- ===== src/Release.antt =====
-- env/app/release.py: the preview-consent gate. The children hold the parts: the statements on the
-- pair of copies (`Gate`), the address's answer (`Decision`) and the operator's void (`Void`).
pub mod Gate
pub mod Decision
pub mod Void
