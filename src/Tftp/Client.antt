-- ===== src/Tftp/Client.antt =====
-- `TFTPClient` of tftp/tftp-client.cpp. The two loops are functions of one datagram received; what
-- they return says what was sent, and whether the loop goes on.
pub mod Messages
pub mod Get
pub mod Put
mod Receives
mod Peer
mod Exchanges
pub mod Downloads
mod Mirror
pub mod Uploads
pub mod Failures
mod Tests
