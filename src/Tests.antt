-- ===== src/Tests.antt =====
-- Runs of the models on concrete inputs, and the theorems applied to them.
mod World
mod Names
mod Lists
mod Hosts
mod Setup
mod System
mod Traffic
mod Dialing
mod Metrics
mod Device
mod Fails
mod Connections
mod Exchange
mod Handler
mod Web
mod Kernel
mod Lifecycle
