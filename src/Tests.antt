-- ===== src/Tests.antt =====
-- Runs of the definitions on concrete values, and each result at one of them.
mod Samples
mod Options
mod Statements
mod Converge
mod Gogen
mod Emission
mod Plugin
mod Orchestrator
mod Runner
mod Written
mod Cli
mod Responses
mod Containers
mod Arguments
mod Generation
