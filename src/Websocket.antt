-- ===== src/Websocket.antt =====
-- websocket.c: frames and their masks.
pub mod Mask
pub mod Parameters
pub mod Extensions
pub mod Upgrade
pub mod Frame
pub mod RoundTrip
pub mod Delivery
pub mod Handle
