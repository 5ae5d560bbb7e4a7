-- ===== src/Utils.antt =====
-- The package utils.
pub mod Switch
pub mod Cipher
pub mod Net
pub mod Path
pub mod Autostart
pub mod LogFiles
pub mod Log
