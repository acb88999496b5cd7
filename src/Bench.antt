-- ===== src/Bench.antt =====
-- bench: the clients of the evaluation, and the summaries of its results.
pub mod Clients
pub mod Numbers
pub mod Collateral
pub mod Logs
pub mod Detection
pub mod Chart
pub mod Measurements
pub mod Plot
pub mod Latency
pub mod Stack
