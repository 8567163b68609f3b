-- ===== src/DocPipeline/Telemetry/Instruments.antt =====
-- Which instrument a method records on.
use Prim.Native.String.{String}
use performance_handbook.Base.{◌≡◌, true, Option, some, arith}
use performance_handbook.Base.Int.{ℤ}
use performance_handbook.DocPipeline.Telemetry.{
  Kind, int64_counter, int64_histogram, float64_histogram, float64_gauge, TelemetryMetrics,
  init_metrics, Call, inc_data_loading_requests, record_data_loading_request_text_size,
  record_processing_latency, inc_stage_total_processed_items, inc_stage_errors,
  set_deduplication_threshold, inc_total_processed_documents_for_indexing,
  inc_total_duplicate_documents, Value, int64, float64, measure,
}

-- The name under which a call is to be seen, and the kind of instrument.
abbrev pub documented : {F : Type 0} → Call F → Kind × String
documented (inc_data_loading_requests n) = (int64_counter, "num_documents")
documented (record_data_loading_request_text_size size) = (int64_histogram, "text_size")
documented (record_processing_latency latency stage) = (float64_histogram, "processing_latency")
documented (inc_stage_total_processed_items stage) = (int64_counter, "stage_total_processed_items")
documented (inc_stage_errors stage) = (int64_counter, "stage_errors")
documented (set_deduplication_threshold threshold) = (float64_gauge, "deduplication_threshold")
documented inc_total_processed_documents_for_indexing =
    (int64_counter, "total_processed_documents_for_indexing")
documented inc_total_duplicate_documents = (int64_counter, "total_duplicate_documents")

-- A value that an instrument of the kind takes.
abbrev pub Takes : {F : Type 0} → Kind → Value F → Type 0
Takes int64_counter (int64 n) = Unit
Takes int64_counter (float64 x) = ⊥
Takes int64_histogram (int64 n) = Unit
Takes int64_histogram (float64 x) = ⊥
Takes float64_histogram (int64 n) = ⊥
Takes float64_histogram (float64 x) = Unit
Takes float64_gauge (int64 n) = ⊥
Takes float64_gauge (float64 x) = Unit

-- If `InitMetrics` succeeds, every method records on the instrument that the meter has created for
-- the name and of the kind that belong to the method, with a value of its type.
pub measured_where_documented :
    {Instrument F : Type 0} (milliseconds : ℤ → F) (create : Kind → String → Option Instrument)
    (t : TelemetryMetrics Instrument) (c : Call F)
    → init_metrics true create ≡ some t
    → (create (documented c).0 (documented c).1 ≡ some (measure milliseconds t c).instrument)
      × Takes (documented c).0 (measure milliseconds t c).value
unfolding init_metrics measure
measured_where_documented milliseconds create t (inc_data_loading_requests n) e = (ground arith, tt)
measured_where_documented milliseconds create t (record_data_loading_request_text_size size) e =
    (ground arith, tt)
measured_where_documented milliseconds create t (record_processing_latency latency stage) e =
    (ground arith, tt)
measured_where_documented milliseconds create t (inc_stage_total_processed_items stage) e =
    (ground arith, tt)
measured_where_documented milliseconds create t (inc_stage_errors stage) e = (ground arith, tt)
measured_where_documented milliseconds create t (set_deduplication_threshold threshold) e =
    (ground arith, tt)
measured_where_documented milliseconds create t inc_total_processed_documents_for_indexing e =
    (ground arith, tt)
measured_where_documented milliseconds create t inc_total_duplicate_documents e = (ground arith, tt)
