-- ===== src/Tests.antt =====
-- Servers that hold one resource, and the theorems at concrete resources.
mod Server
mod ApiServer
mod Api
mod BuildServer
mod DeletingServer
mod Images
mod Builds
mod Configs
mod Deployments
