-- ===== src/Tests.antt =====
-- Each theorem that has hypotheses or arguments, at a concrete input, and runs of the code.
mod Samples
mod Resolving
mod Guarding
mod Serving
mod Parsing
mod Running
mod Arriving
mod Reporting
mod Starting
mod Ordering
mod Loading
