-- ===== src/Tests.antt =====
-- A sample cluster that meets what the theorems assume, and the theorems at work in it.
mod Vendor
mod Cluster
mod Runs
mod Reconciles
mod Parts
mod Deliveries
mod Whole
mod Factories
mod Works
mod Workers
mod Twice
mod Life
mod Copies
mod Controllers
mod Processes
mod Clients
mod Fakes
