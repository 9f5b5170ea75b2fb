-- ===== src/Examples.antt =====
-- A small concrete cloud, and runs of the services on it.
mod Cloud
mod Hosting
mod Runs
mod Serving
mod Requests
mod JsonRuns
mod Storing
mod Progress
mod Launching
mod Reading
