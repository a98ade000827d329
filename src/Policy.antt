-- ===== src/Policy.antt =====
-- internal/policy: the policy contract, its validation, the compilation of a snapshot and the
-- evaluation of a decision.
pub mod Value
pub mod Model
pub mod Validate
pub mod Eval
pub mod Compile
pub mod Examples
