-- ===== src/Shared.antt =====
-- The modules of frontend/src/shared that both pages use.
pub mod PressToTalk
pub mod MicrophoneGate
