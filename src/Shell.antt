-- ===== src/Shell.antt =====
-- src/shell/: classification, parsing and rewriting of shell commands.
pub mod Classify
pub mod Parse
pub mod Compare
pub mod Rewrite
