-- ===== src/Lib.antt =====
-- fz_server: the streaming server, as functions and relations that follow its C++ sources.
--
-- The server accepts RTSP connections and, after PLAY, sends an H.264 file and an AAC file as RTP
-- packets. `RtspHandler` (src/handler/rtsp/rtsp_handler.cpp) reads a request, answers it, and
-- keeps its sessions in three tables that all connections share: `SessionManager`, `ClientFdManager`
-- and `PortManager`. Two loops then read the media files; src/container/h264/h264.h and
-- src/container/aac/adts.h cut them into units and frames and make packets of these, and
-- src/handler/rtp/rtp.cpp puts the packets on a socket.
--
-- Files and code:
--   Rtp        src/handler/rtp/rtp.h and rtp.cpp: the header's fields and its twelve bytes in
--              memory (`rtpHeaderInit`, `rtpSendPacketOverTcp`, `rtpSendPacketOverUdp`). Rtp/Wire
--              has the reader of RFC 3550, Rtp/Framing that of an interleaved frame and the
--              interface `IsTransport` that the packetizers take, Rtp/Packet the steps on a
--              packet, Rtp/Delivery the relation between a list of packets and a run of a sender.
--   H264       src/container/h264/h264.h: H264/Extract (`extract_content`), H264/Send
--              (`sendManager`, `sendManagerTcp`), H264/Packets (the packets of RFC 6184 as a
--              list), H264/Receiver (a receiver that assembles them), H264/Manager, Progress,
--              Received, Sizes and Scan the proofs.
--   Aac        src/container/aac/adts.h: `parseAdtsHeader`, `rtpSendAACFrame`,
--              `rtpSendAACFrameTcp`; Aac/Header has the layout of the header in bits, Aac/Frame
--              the reader of RFC 3640.
--   Media      the file loops of rtsp_handler.cpp: `sendH264OverTcp`, `sendH264OverUdp`,
--              `sendAacOverTcp`, `sendAacOverUdp`; the proofs are in Media/Units, Playing and
--              Frames, for a file of ADTS frames (Media/Adts) Media/Heard, and for a file of
--              Annex B (Media/AnnexB) Media/Viewed, Rounds and Watched.
--   Response   src/handler/rtsp/RtspResponse.cpp, with a client's reader in Response/Reading.
--   Session    src/session/session.h, sessionManager.h and src/common/clientFdManager.h. An
--              object behind a `Session*` is a cell of a heap; Session/Managers has the invariant
--              of the table.
--   Ports      src/utility/portManager.h, and what a pair is worth in Ports/Fresh.
--   SessionId  src/utility/generate_session.h.
--   Rtsp       the rest of rtsp_handler.cpp: Rtsp/State (the state), Rtsp/Request (the line
--              loops), Rtsp/Replies (`handleCmd_...`), Rtsp/Build (`build_string`,
--              `build_string_tcp`), Rtsp/Handle (`interact_rtsp`, `interact_rtsp_tcp`,
--              `handleRequest`); the proofs are in Rtsp/Build/Setup, Dialogue, Udp and Granted,
--              Rtsp/Handle/Reading, Sound, Crash and Unknown, for requests as a client prints them
--              Rtsp/Request/Printed, Lines and RoundTrip, and Rtsp/Replies/Fits.
--   Server     src/server/epollServer.cpp: `handleClientRequest`, which makes a handler for each
--              event, and the sequence of events; Server/Runs has the invariant of whole runs.
--              Server/Loop has `initserver`, `init` and `run`, with the set of descriptors that
--              epoll watches; the proofs are in Server/Watched and, for the port that `run`
--              reads, Server/Port; Server/Opened follows `init` from `initserver` on. Server/Stands, Answered and Dialogue follow a client through
--              SETUP, SETUP and PLAY, Server/Printed from its texts on; Server/Held, Elsewhere
--              and Apart follow the requests of the other connections.
--   Ini        src/utility/ini_file/IniFile.h and IniFile.cpp: Ini (the file and its operations),
--              Ini/Ordered (std::map as a list in order), Ini/Values (the conversions of
--              `Value`); the proofs are in Ini/Trim, Entries, RoundTrip, Sorted and Views.
--   Logger     src/utility/logger/Logger.h and Logger.cpp: `log`, `rotate` and the inner loop of
--              `process_logs` on the queue and the files, with proofs in Logger/Moves and
--              Logger/Queue; Logger/Wait has the steps by which `process_logs`, `log` and `stop`
--              wait for each other, Logger/Notify what holds where no notification is lost.
--   Former     src/rtsp/rtsp_server.cpp, an older server that the build leaves out: its answers,
--              `doclient`, `main` and `initTcpServer` (Former/Replies, Request, Client, Main);
--              Former/Playing compares its PLAY with `sendH264OverUdp`, Former/Serving follows
--              its run.
--   Prelude, Memory, Word, Bits, Net, File, Text, Map: what the parts share. A buffer is the
--              function from an offset to a byte, a file its bytes and a position, a socket a log
--              of what was handed to the kernel with the kernel's answers as a parameter. Tests
--              has concrete inputs.
--
-- State is passed explicitly, and a crash (a null pointer, an exception that nobody catches) is `none`;
-- for the AAC functions, where also the bounds of their two buffers and `free` count, `crashed`.
-- An `int` of the protocol, and what `atoi` gives, is an integer of any size; the words of the RTP
-- header wrap around. What `sscanf` stores is not cut at the size of its array; Rtsp/Request/RoundTrip has
-- the sizes as a condition, `IsStorable`.
--
-- Fuel: the file loops take one unit for each round and one more; each round that goes on leaves the
-- file at least one byte further, so more fuel than the file has bytes is enough, which the theorems on
-- them show. `generate_ports` takes one unit for each draw, and ends where a draw within them is usable.
-- All other loops are by recursion on their data. The loop over epoll's events takes the rounds that
-- epoll delivers before it fails.
--
-- Not modelled: the protocol factory and the RTMP handler; doubles in a configuration file; spurious
-- ends of a wait on a condition variable; the creation of sockets and the threads that play the two
-- files, whose packets are a parameter of `handle_request`; sleeps and printing; the overflow of the
-- fixed buffers that `sscanf` writes to. Random numbers, the clock, and the content of storage that is
-- read before it is written are parameters.
pub mod Prelude
pub mod Memory
pub mod Word
pub mod Net
pub mod Rtp
pub mod Bits
pub mod File
pub mod H264
pub mod Aac
pub mod Media
pub mod Text
pub mod Map
pub mod Response
pub mod Session
pub mod Ports
pub mod SessionId
pub mod Rtsp
pub mod Server
pub mod Tests
pub mod Ini
pub mod Logger
pub mod Former
