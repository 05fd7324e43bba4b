-- ===== src/DashboardBuilder.antt =====
-- pkg/dashboard/dashboardbuilder: the structured dashboard, the normalisation of its queries, its
-- automatic layout and its validation.
pub mod Types
pub mod Samples
pub mod Errors
pub mod Filter
pub mod Validate
pub mod Variables
pub mod Layout
pub mod Having
pub mod Normalize
