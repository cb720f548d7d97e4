-- ===== src/Tftp/Reader.antt =====
-- `TFTPSessionRead` of tftp/tftp-server.cpp, with the fields of its base class `TFTPSession`.
-- A handler takes what the environment answers (the file of a name, whether the datagram was
-- sent) and returns the session with the datagrams handed to the socket; `none` is a read past
-- the end of the receive buffer.
pub mod Blocks
pub mod Requests
pub mod Turns
pub mod Netascii
pub mod Transfer
pub mod Ends
