-- ===== src/Recommend.antt =====
-- internal/analysis/recommend.go and exclude.go: what is recommended for the VMs and the clusters of a
-- vCenter. float64 is the type `F` of `Floats`. The texts of a finding that are only printed are left
-- out, and so are the charts.
pub mod Data
pub mod Rules
pub mod Shape
pub mod Exclusions
pub mod Cluster
pub mod Order
pub mod Analyze
pub mod Rightsizing
pub mod Sums
pub mod Balance
pub mod Outcome
pub mod Ranking
pub mod Kept
pub mod Hosts
pub mod Profiles
pub mod Merge
pub mod Combined
mod Tests
