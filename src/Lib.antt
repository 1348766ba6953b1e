-- ===== src/Lib.antt =====
-- Verification of NodeLink, a BitTorrent client in C++.
--
-- The program reads a torrent file (include/parsing, source/parsing), asks a tracker for peers
-- (include/tracker, source/tracker), and downloads the file's pieces from a few peers at once
-- (include/download, source/download): a farm of connections reacts to socket events, each
-- connection speaks the peer protocol, a downloader that they share assembles and checks the
-- pieces, and a writer thread puts them on disk.
--
-- Which file models which part:
-- - Base and its children: the shared names, Boolean tests, lists, the outcomes of a C++ call
--   (a value, an exception that keeps the state it was thrown in, undefined behaviour) and the
--   integer types. An int is the 32-bit pattern that stands for it, an int64_t or a long long is
--   an integer, unsigned types are natural numbers with their wrap written out.
-- - Parsing/Buffer: include/parsing/buffer.h. A byte vector and a byte string are lists of bytes.
-- - Parsing/Sha1: include/parsing/Sha1.h, executable in full; its child Reference/Standard has the definitions of
--   RFC 3174, which use none of the code's.
-- - Parsing/Text: what the code uses of the standard library's text functions.
-- - Parsing/Bnode: source/parsing/Bnode.cpp. A value, its lists and its maps are one mutual data
--   type; a text that is decoded goes in from the index on, and what is left of it comes out. A read of
--   data[index], or a range, behind the end of the data is undefined behaviour in the model too.
-- - Parsing/TorrentFile: include/parsing/TorrentFile.h and source/parsing/TorrentFile.cpp. The file's
--   bytes and the SHA1 of OpenSSL are arguments.
-- - Tracker/Peer: the record of include/tracker/Peer.h.
-- - Tracker/Url: source/tracker/Url.cpp.
-- - Tracker/Compact, Tracker/Udp and Tracker/Http: source/tracker/tracker.cpp, that is the compact list
--   of peers, GetPeersUDP with its packets, and UrlEncode, GetPeersHTTP and GetPeers. What the tracker
--   and the network answer, and the random numbers, are arguments. Udp/Calls has GetPeersUDP once more, as
--   the system calls that it makes, with its child Served for a kernel that takes them, and Calls has GetPeers
--   over them.
-- - Tracker/Transport: source/tracker/transport.cpp and its header, as the system calls that a client
--   makes; its child Exchange has the use of TcpClient by GetPeersHTTP, and
--   Accounts what the calls open, close, make and free.
-- - Download/Message: source/download/message.cpp, each builder and reader under its name.
-- - Download/Worker: the queue and the counters of source/download/Worker.cpp. Its child Steps has the
--   writer's thread, and the threads that call the writer, as steps that interleave; its child File what
--   the thread's seekp and write do to the file, a list of bytes with the stream's fail bit. The child
--   Display has the text that the progress display prints, over an interface for `double`, and Refresh
--   its thread and the thread that counts, a step for each access to a counter.
-- - Download/Downloader: source/download/downloader.cpp. The numbered steps of OnBlockReceived
--   are the functions begin_piece, copy_block, update_speed and check_integrity. Its child Assembly
--   follows one piece through them, Whole all the pieces of a torrent up to the
--   file, and Interleaved blocks of different pieces that alternate.
-- - Download/Connection: source/download/Connection.cpp. State holds the members, Requests
--   RequestNextBlock, Messages ProcessBuffer and the message handlers, Events the event handlers. Sending has
--   what is sent over all events of one socket, in order.
-- - Download/Farm: source/download/Farm.cpp, and Downloader::Start of source/download/downloader.cpp:
--   the connections that share a downloader, and the event loop on a list of what epoll reports.
-- - Client: test/main.cpp, the main program, over all of the above.
--
-- Bounds and fuel. The loop over candidate pieces runs on fuel for one candidate more than the
-- torrent has pieces; the loop of ProcessBuffer on fuel for one round more than the buffer has
-- bytes, of which each round takes four at least; the padding loop of SHA-1 on 64 rounds;
-- the bencode decoder on fuel for one call more than twice the bytes of its input. The call stack is
-- not bounded. Allocation does not fail. What connect, send and recv of the kernel answer is an argument.
--
-- Not modelled: log lines and other messages, the escape sequences that the display prints before its
-- first round and after its last, the pauses and sleeps of the threads, and the manual test programs. Nor is
-- a failure to open or to write the output file: the stream fails only at a negative offset.
pub mod Base
pub mod Parsing
pub mod Tracker
pub mod Download
pub mod Client
