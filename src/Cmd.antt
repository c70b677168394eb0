-- ===== src/Cmd.antt =====
-- The programs under cmd: the console's functions that are more than input and output.
pub mod Console
