-- ===== src/Services.antt =====
-- The package services.
pub mod Node
pub mod SwitchLounge
pub mod LocalClientLounge
pub mod TcpConnectionHub
pub mod PassiveForwarder
pub mod TcpCore
pub mod ProactiveBroadcaster
pub mod ClientAliveChecker
pub mod HttpSender
pub mod MulticastListener
pub mod SwitchCore
