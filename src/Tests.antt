-- ===== src/Tests.antt =====
-- Runs of the model on concrete inputs.
mod Worlds
mod Commands
mod Network
mod Scripts
mod Service
mod Sounds
mod Video
mod Windows
