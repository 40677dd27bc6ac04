-- ===== src/Tests.antt =====
-- Tests, and each theorem at an input that meets its hypotheses.
mod EngineExamples
mod ServerExamples
mod ClientExamples
mod ReportExamples
mod SignExamples
mod StatsExamples
mod IssueExamples
mod RunExamples
mod TargetExamples
mod LinkExamples
mod PhaseExamples
mod CmdExamples
mod ProbeExamples
mod RequestExamples
mod ReportedExamples
