-- ===== src/Lib.antt =====
-- Verification of the network protocols: the TFTP, DNS, Telnet, SMTP and FTP servers, and the TFTP
-- and DNS clients.
--
-- The program is a set of small servers on the library asio. Each has one handler that runs when
-- bytes have come, changes the state of a session, writes, and asks for more. The handlers are
-- modelled as functions from the state and the bytes received to the new state and what was handed to
-- the socket or to the file system; a run of a server is a sequence of calls of its handler.
--
-- Common/   lists, bytes and tests on native numbers that all parts share.
--
-- Tftp/     tftp/tftp-server.cpp. Protocol has the constants and `sendErrorMessage` (error_message).
--           Reader is `TFTPSessionRead`: Blocks has `sendBlockOfData` (send_block_of_data, with the
--           netascii loop as `fill`), Requests has `onDataReceived` (on_read_request). Writer is
--           `TFTPSessionWrite`: Checks has the tests on the file system, Blocks has `onDataReceived`
--           (on_write_request) and `sendAcknowledge`. Server is `TFTPServer::receive` (receive) with
--           its table of sessions by endpoint. Streams models `std::ifstream` and `std::ofstream`.
--           Relay and Copies join two sessions by a client that passes data on. Client is
--           tftp/tftp-client.cpp: Messages has what it sends and `writeErrorMessage`, Get and Put
--           have `getFile` and `putFile`, where a turn is what a loop does with one datagram. Peer and
--           Exchanges join it to the sessions of the server. Alone has the datagrams of many clients
--           (run_all).
-- Dns/      dns/common and dns/server. Header and Names are `DNSMessage`, Query is `DNSQuery`,
--           Response is `DNSResponse`, Resolver is `DNSResolver` with the handler of
--           `DNSServer::receive`, Server how `DNSServer` goes on to the next datagram, Client is
--           `resolve` of dns/client/dns_client.cpp. The other modules relate what a client and the
--           server write and read.
-- Telnet/   telnet/server/telnet_session.cpp. Session has the state and the helpers, Receive the
--           handler of `receive` in its three states, Server `TelnetServer` with its list of
--           sessions (telnet/server/telnet_server.cpp).
-- Smtp/     smtp/server/smtp_session.cpp. Session has the state, the replies (`sendResponse`) and the
--           file of the message, Commands the handlers of the commands, Message `processMessage`
--           and `deliverMessage`, Receive `processCommand` and the handler of `receive`, Server
--           `SMTPServer` with its table of sessions (smtp/server/smtp_server.cpp). A Happening of a
--           server is a call by the event loop, and a run is a list of them in any order.
-- Ftp/      ftp/server/ftp_session.cpp. Commands is how `executeCommand` reads a line, Execute how it
--           goes on (dispatch, execute_command) and the loop of `worker`; Handlers has USER, PASS,
--           TYPE, QUIT, RETR and STOR, Files CWD, DELE, MKD, RMD, PWD and NLST, Connections PORT,
--           EPRT, PASV and EPSV with the data connection, Paths the paths and regular expressions.
--           The record Surroundings holds what a command meets: the users of ftp/server/users_db.cpp,
--           the file system, the network, the contents of files, the pieces that are read, and the
--           number of writes that succeed. Server is `FTPServer` with its list of sessions and the turns
--           of their threads (ftp/server/ftp_server.cpp).
-- TelnetServer/ telnet-server/: Client is a session with the handlers of its reads and writes in
--           server.cpp and the callbacks of main.cpp, Server the set of sessions.
--
-- Strings and buffers are lists of byte values, and a char is signed. A read past the end of a
-- buffer, which C++ leaves undefined, is the result `none`, or the next step `overrun` in Smtp/.
-- Numbers are natural numbers, with `% 65536` where a counter of 16 bits wraps round, and
-- `% 4294967296` for one of 32 bits. The netascii loop runs on 512 turns, one for each place of a
-- block, since a turn puts a byte or ends; the loop over the labels of a name runs on one turn more
-- than there are bytes, since a turn takes a byte. Following the pointers of a name has fuel as a
-- parameter, since a pointer to itself makes the code loop. The file system and the
-- files are parameters: functions from names to contents or to the answers of the tests that the
-- code makes.
--
-- A failed assertion is `none` too, and the asserts are taken as enabled. What stands in a receive
-- buffer behind the bytes of a datagram, left by earlier ones, is a parameter. A conversation of the
-- TFTP client and the server has fuel, one unit for each datagram of the client, and the theorems on
-- it give the number that is enough. Paths are those of `std::experimental::filesystem`.
--
-- Not modelled: sockets, the event loop, threads, signals and logs, which are calls of asio and of
-- the streams; the copy of asio in 3rdparty/.
-- The errors of reads and writes are modelled where they end or change a session: in Smtp/ a read that
-- fails and a reply that cannot be written (`sends` of Disk), in Ftp/ the errors of the loop of the
-- session and of its transfers, in Telnet/ the writes of `start` and the reads, and in TelnetServer/.
-- In Dns/Server a response that cannot be sent ends the receptions. The messages of the FTP session to
-- its client are taken to be sent. In Tftp/ a datagram is taken to be sent.
-- A question of the FTP session to the file system may be left by an exception where the code asks
-- without an error code: its answer is then `none`, and the command ends the session (thrown). A passive
-- connection, and the data of a STOR, may never come: the command then never ends (waits).
pub mod Common
pub mod Tftp
pub mod Dns
pub mod Telnet
pub mod Smtp
pub mod Ftp
pub mod TelnetServer
