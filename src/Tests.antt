-- ===== src/Tests.antt =====
-- Runs of the models on concrete inputs, with small implementations of the parameters.
mod Toys
mod TemplateRuns
mod MacRuns
mod StorageRuns
mod EngineRuns
mod SessionRuns
mod CameraRuns
mod ThreadRuns
mod VisionRuns
mod ScaleRuns
