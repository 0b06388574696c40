-- ===== src/Tests.antt =====
-- Runs of the definitions, and the theorems at concrete inputs.
mod Frames
mod Runqueue
mod Texts
mod Devices
mod Sessions
mod Blocks
mod Screens
mod Spaces
mod Machine
mod Pages
mod Keys
mod Startup
mod Commands
