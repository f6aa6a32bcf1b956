-- ===== src/Examples.antt =====
-- Small inputs for each part, and the theorems applied to them.
mod Numbers
mod Reliability
mod Incidents
mod Ingestion
mod Stream
mod Consumer
mod Detector
mod Alerts
mod Auth
mod Api
mod Simulator
