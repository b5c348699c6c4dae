-- ===== src/Tests.antt =====
-- Runs at fixed inputs, and each theorem at an input that meets its hypotheses.
mod Queue
mod Threads
mod Asio
mod Deferred
mod Executors
mod Registry
mod Loop
mod Http
mod Serving
mod Startup
