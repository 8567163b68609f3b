-- ===== src/DocPipeline.antt =====
-- applications/doc-pipeline: the requests, the functions of the stages, and the stage that runs
-- them.
pub mod Stage
pub mod Load
pub mod Documents
pub mod Index
pub mod Pipeline
pub mod Indexing
pub mod Program
pub mod Telemetry
