-- ===== src/Tests.antt =====
-- Runs of the model and the theorems at concrete inputs: frames, producers, the
-- socket client, and the HTTP worker.
mod Wire
mod Producer
mod Machine
mod Remote
mod Supervision
mod Tools
