-- ===== src/Spec.antt =====
-- src/spec: what to draft for speculative decoding, and how much.
pub mod Suffix
pub mod Controller
