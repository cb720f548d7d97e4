-- ===== src/Tftp/Writer.antt =====
-- `TFTPSessionWrite` of tftp/tftp-server.cpp, with the fields of its base class `TFTPSession`.
pub mod Checks
pub mod Blocks
pub mod Receives
