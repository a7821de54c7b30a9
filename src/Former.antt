-- ===== src/Former.antt =====
-- src/rtsp/rtsp_server.cpp, an older server in one file that the build leaves out: the answers, `doclient`,
-- `main` and `initTcpServer`. Its `extract_content` and `sendManager` are the same code as in
-- src/container/h264/h264.h, and its rtp.cpp sends a datagram as src/handler/rtp/rtp.cpp does, so the model
-- takes those.
pub mod Replies
pub mod Request
pub mod Client
pub mod Playing
pub mod Main
pub mod Serving
