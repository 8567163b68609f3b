-- ===== src/LogAggregator.antt =====
-- applications/log-aggregator: a producer that publishes log entries, and an aggregator that
-- collects them in a file.
pub mod Wire
pub mod Registry
pub mod Producing
pub mod Collecting
pub mod Commands
