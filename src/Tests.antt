-- ===== src/Tests.antt =====
-- Runs of the models on concrete inputs, and the theorems applied to them.
mod Division
mod Addresses
mod Buffer
mod Bandwidth
mod Device
mod Control
mod Nfp
mod Warming
mod Latency
mod Master
mod Unaligned
mod Helper
mod Files
