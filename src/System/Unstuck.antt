-- ===== src/System/Unstuck.antt =====
-- queue.py and worker.py side by side: jobs whose workers keep ending are closed in the end.
pub mod Weights
pub mod Rounds
pub mod Closed
