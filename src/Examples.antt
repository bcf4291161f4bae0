-- ===== src/Examples.antt =====
-- Concrete runs of the models, at which the theorems' conditions hold.
mod Billing
mod Builds
mod Dispatches
mod Gateway
mod Launches
mod Manifests
mod Runs
mod Auth
mod Audit
mod Vault
mod Agents
mod Serving
mod Schedule
mod Surface
mod Tenants
