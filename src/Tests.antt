-- ===== src/Tests.antt =====
-- Tests: instances of what stands outside the repository, and the theorems at concrete inputs.
mod Texts
mod Store
mod Sync
mod Fields
mod Sessions
mod Uploads
mod Auth
mod Stacks
