-- ===== src/Examples.antt =====
-- Concrete runs of the modelled code: one for each theorem that has hypotheses, and tests.
mod Statuses
mod Packs
mod Uploads
mod Plans
mod Imports
mod Maintenance
mod Catalog
mod Bundles
mod Sites
mod Commits
mod Manifests
mod Registrations
