-- ===== src/Tests.antt =====
-- Runs of the program at concrete data, and the theorems at these data.
mod Shell
mod Scheduler
mod Hook
mod Config
mod Install
mod Supervisor
mod Clients
mod Commands
mod RoundTrip
