-- ===== src/Tests.antt =====
-- Runs of the model on concrete inputs, and the theorems applied to inputs that meet their
-- hypotheses.
mod Cache
mod Catalog
mod Devices
mod Dispatch
mod Flights
mod Funnel
mod Payload
mod Plan
mod Processes
mod Quality
mod Questions
