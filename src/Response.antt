-- ===== src/Response.antt =====
-- src/handler/rtsp/RtspResponse.h and RtspResponse.cpp.
pub mod Reading
use fz_server.Prelude.{ℕ, ◌-◌, ◌||◌, not, Bool, [], ◌∷◌, ◌++◌, ltb, if◌then◌else◌, length, drop}
use fz_server.Prelude.Int.{ℤ}
use fz_server.Memory.{Bytes}
use fz_server.Text.{bytes, equals, is_empty}
use fz_server.Text.Decimal.{show_nat, show_int}

-- A value of the enumeration that has no name is a cast from its number.
pub data RtspStatusCode : Type 0 where
  ok bad_request unauthorized not_found internal_server_error not_implemented : RtspStatusCode
  other : ℕ → RtspStatusCode

unfoldable pub code_number : RtspStatusCode → ℕ
code_number RtspStatusCode.ok = 200
code_number RtspStatusCode.bad_request = 400
code_number RtspStatusCode.unauthorized = 401
code_number RtspStatusCode.not_found = 404
code_number RtspStatusCode.internal_server_error = 500
code_number RtspStatusCode.not_implemented = 501
code_number (RtspStatusCode.other n) = n

unfoldable pub reason : RtspStatusCode → Bytes
reason RtspStatusCode.ok = bytes "OK"
reason RtspStatusCode.bad_request = bytes "Bad Request"
reason RtspStatusCode.unauthorized = bytes "Unauthorized"
reason RtspStatusCode.not_found = bytes "Not Found"
reason RtspStatusCode.internal_server_error = bytes "Internal Server Error"
reason RtspStatusCode.not_implemented = bytes "Not Implemented"
reason (RtspStatusCode.other n) = bytes "Unknown Status"

abbrev pub crlf : Bytes
crlf = 13 ∷ 10 ∷ []

-- `headers.size() < 2 || headers.substr(headers.size() - 2) != "\r\n"`.
unfoldable pub lacks_crlf : Bytes → Bool
lacks_crlf headers = ltb (length headers) 2 || not (equals (drop (length headers - 2) headers) crlf)

unfoldable pub header_block : Bytes → Bytes
unfolding lacks_crlf
header_block headers =
    if is_empty headers then [] else headers ++ (if lacks_crlf headers then crlf else [])

unfoldable pub generate_rtsp_response : RtspStatusCode → ℤ → Bytes → Bytes → Bytes
unfolding code_number reason header_block
generate_rtsp_response code cseq headers body =
    bytes "RTSP/1.0 "
    ++ (show_nat (code_number code)
        ++ (b' '
            ∷ (reason code
                ++ (crlf
                    ++ (bytes "CSeq: "
                        ++ (show_int cseq
                            ++ (crlf ++ (header_block headers ++ (crlf ++ body)))))))))
