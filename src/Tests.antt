-- ===== src/Tests.antt =====
-- Runs of the models at concrete inputs.
mod Data
mod Exchange
mod Sample
mod Sets
mod Registries
mod Caches
mod Pages
mod Handlers
mod Publications
mod Checks
mod Identities
