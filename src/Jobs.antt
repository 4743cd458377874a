-- ===== src/Jobs.antt =====
-- Jobs: core/job_pipeline.
pub mod StageContracts
pub mod RoundTrip
pub mod Written
