-- ===== src/DocPipeline/Telemetry/Tests.antt =====
-- A meter that gives every instrument its name.
use Prim.Native.String.{String}
use performance_handbook.Base.{◌≡◌, refl, true, Option, some}
use performance_handbook.DocPipeline.Telemetry.{
  Kind, TelemetryMetrics, init_metrics, inc_stage_errors, measure,
}

abbrev by_name : Kind → String → Option String
by_name kind name = some name

abbrev names : TelemetryMetrics String
names = record {
  num_documents_counter = "num_documents";
  text_size_histogram = "text_size";
  processing_latency_histogram = "processing_latency";
  stage_total_processed_items_counter = "stage_total_processed_items";
  stage_errors_counter = "stage_errors";
  deduplication_threshold = "deduplication_threshold";
  total_processed_documents_for_indexing = "total_processed_documents_for_indexing";
  total_duplicate_documents = "total_duplicate_documents";
}

all_made : init_metrics true by_name ≡ some names
unfolding init_metrics
all_made = refl

failing_load : (measure (λ n. n) names (inc_stage_errors "load")).instrument ≡ "stage_errors"
unfolding measure
failing_load = refl
