-- ===== src/Tests.antt =====
-- Runs of the model on concrete machines, and the theorems at concrete inputs.
mod Machines
mod Hardening
mod Ports
mod Credentials
mod Agent
mod Teardown
mod Backups
mod Instances
mod Upgrades
mod Requests
