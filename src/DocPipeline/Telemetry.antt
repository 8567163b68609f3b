-- ===== src/DocPipeline/Telemetry.antt =====
-- internal/telemetry/telemetry.go: the instruments, and what each method records on them. The meter
-- is a parameter.
pub mod Instruments
mod Tests
use Prim.Native.String.{String}
use performance_handbook.Base.{ℕ, Bool, true, false, Option, none, some, ◌>>=◌, if◌then◌else◌}
use performance_handbook.Base.Int.{ℤ, pos}

-- The methods of the meter that create an instrument
pub data Kind : Type 0 where
  int64_counter int64_histogram float64_histogram float64_gauge : Kind

-- `TelemetryMetrics`
pub record TelemetryMetrics (Instrument : Type 0) : Type 0 where
  pub num_documents_counter : Instrument
  pub text_size_histogram : Instrument
  pub processing_latency_histogram : Instrument
  pub stage_total_processed_items_counter : Instrument
  pub stage_errors_counter : Instrument
  pub deduplication_threshold : Instrument
  pub total_processed_documents_for_indexing : Instrument
  pub total_duplicate_documents : Instrument

-- `InitMetrics`: `exporter` says whether `prometheus.New` succeeds, and `create` is what the meter
-- answers for an instrument of a name; false and none are errors. Descriptions, units and buckets
-- are left out.
unfoldable pub init_metrics :
    {Instrument : Type 0}
    → Bool
    → (Kind → String → Option Instrument)
    → Option (TelemetryMetrics Instrument)
init_metrics false create = none
init_metrics true create = do
  num_documents ← create int64_counter "num_documents"
  text_size ← create int64_histogram "text_size"
  latency ← create float64_histogram "processing_latency"
  processed ← create int64_counter "stage_total_processed_items"
  errors ← create int64_counter "stage_errors"
  threshold ← create float64_gauge "deduplication_threshold"
  indexed ← create int64_counter "total_processed_documents_for_indexing"
  duplicates ← create int64_counter "total_duplicate_documents"
  some (record {
    num_documents_counter = num_documents;
    text_size_histogram = text_size;
    processing_latency_histogram = latency;
    stage_total_processed_items_counter = processed;
    stage_errors_counter = errors;
    deduplication_threshold = threshold;
    total_processed_documents_for_indexing = indexed;
    total_duplicate_documents = duplicates;
  })

-- A call of a method; a latency is a number of nanoseconds, and `F` are the floating-point numbers.
pub data Call (F : Type 0) : Type 0 where
  inc_data_loading_requests : ℤ → Call F
  record_data_loading_request_text_size : ℤ → Call F
  record_processing_latency : ℤ → String → Call F
  inc_stage_total_processed_items : String → Call F
  inc_stage_errors : String → Call F
  set_deduplication_threshold : F → Call F
  inc_total_processed_documents_for_indexing : Call F
  inc_total_duplicate_documents : Call F

pub data Value (F : Type 0) : Type 0 where
  int64 : ℤ → Value F
  float64 : F → Value F

-- `Add` or `Record`: the instrument, the value, and the attribute `stage_name`, if there is one.
pub record Measurement (Instrument F : Type 0) : Type 0 where
  pub instrument : Instrument
  pub value : Value F
  pub stage_name : Option String

-- The methods; `milliseconds` is `float64(ns) / 1000_000.0`.
unfoldable pub measure :
    {Instrument F : Type 0}
    → (ℤ → F)
    → TelemetryMetrics Instrument
    → Call F
    → Measurement Instrument F
measure milliseconds t (inc_data_loading_requests n) = record {
  instrument = t.num_documents_counter;
  value = int64 n;
  stage_name = none;
}
measure milliseconds t (record_data_loading_request_text_size size) = record {
  instrument = t.text_size_histogram;
  value = int64 size;
  stage_name = none;
}
measure milliseconds t (record_processing_latency latency stage) = record {
  instrument = t.processing_latency_histogram;
  value = float64 (milliseconds latency);
  stage_name = some stage;
}
measure milliseconds t (inc_stage_total_processed_items stage) = record {
  instrument = t.stage_total_processed_items_counter;
  value = int64 (pos 1);
  stage_name = some stage;
}
measure milliseconds t (inc_stage_errors stage) = record {
  instrument = t.stage_errors_counter;
  value = int64 (pos 1);
  stage_name = some stage;
}
measure milliseconds t (set_deduplication_threshold threshold) = record {
  instrument = t.deduplication_threshold;
  value = float64 threshold;
  stage_name = none;
}
measure milliseconds t inc_total_processed_documents_for_indexing = record {
  instrument = t.total_processed_documents_for_indexing;
  value = int64 (pos 1);
  stage_name = none;
}
measure milliseconds t inc_total_duplicate_documents = record {
  instrument = t.total_duplicate_documents;
  value = int64 (pos 1);
  stage_name = none;
}
