-- ===== src/Cli.antt =====
-- src/cli/AwstPostPasses.cpp: what the command line does to a finished unit, and the files of its targets.
pub mod Overrides
pub mod Targets
pub mod Templates
