-- ===== src/Tests.antt =====
-- Runs of the functions on small inputs, and the theorems at such inputs.
mod Config
mod RoundTrip
mod Llist
mod Files
mod Images
mod Tree
mod Mixer
mod Supply
