-- ===== src/Rtsp.antt =====
-- src/handler/rtsp/rtsp_handler.h and rtsp_handler.cpp: the RTSP dialogue. `Request` reads a request,
-- `Replies` prints the answers, `Build` carries a method out, `Handle` is the event that
-- epoll reports.
pub mod State
pub mod Request
pub mod Replies
pub mod Build
pub mod Handle
