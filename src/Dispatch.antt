-- ===== src/Dispatch.antt =====
-- workstream_dispatch: the dispatch of jobs to agents, their records and what is observed of them.
pub mod Store
pub mod Adapter
pub mod Posture
pub mod Git
pub mod Intent
pub mod Records
pub mod Notes
pub mod Ordering
pub mod States
pub mod Baselines
pub mod Activity
pub mod Chain
