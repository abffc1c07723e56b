-- ===== src/Examples.antt =====
-- Runs of mcp/src/compliance_mcp on concrete data: the theorems applied where their hypotheses hold.
mod AuditRuns
mod DraftRuns
mod AccessRuns
mod StoreRuns
mod ReviewRuns
mod ServerRuns
mod SettingsRuns
mod ExportRuns
mod EvalRuns
mod FeedRuns
mod LineRuns
