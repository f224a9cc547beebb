-- ===== src/Api/Configurations.antt =====
-- astroplant-api/src/controllers/kit_configuration and the models behind it: the configurations of
-- a kit, their peripherals, and the media that hang on them.
pub mod Table
pub mod Handlers
pub mod Peripherals
pub mod Active
pub mod Patching
pub mod Activation
pub mod Success
pub mod Frozen
pub mod Requests
pub mod Sound
pub mod Steps
pub mod Unchanged
pub mod Used
pub mod Cloned
pub mod Examples
