-- ===== src/Rtsp/Replies/Fits.antt =====
-- The answers of DESCRIBE: what they hold fits the buffers, and their length is told right.
use fz_server.Prelude.{
  ℕ, ◌+◌, ◌*◌, ◌≤◌, ◌<◌, ◌≡◌, ap, ◌++◌, ◌∷◌, [], not, ◌==◌, arith, append_assoc, length,
  length-append, inl, inr, Bool, Bool-cases, Option-cases, some,
}
use fz_server.Prelude.Int.{ℤ, pos}
use fz_server.Memory.{Bytes}
use fz_server.Text.{bytes, span, is_empty}
use fz_server.Text.Decimal.{show_int}
use fz_server.Text.Width.{IsShort, show_int-width}
use fz_server.Rtsp.Request.{scan_literal}
use fz_server.Rtsp.Replies.{local_ip, sdp, describe, handle_describe, handle_describe_tcp}

length-span : (test : ℕ → Bool) (s : Bytes) → length (span test s).0 ≤ length s
unfolding span
length-span test [] = omega arith
length-span test (c ∷ s) = elim (Bool-cases (test c)) [
  | inl more ↦ rw (more, span) (omega (arith, length-span test s))
  | inr stop ↦ rw (stop, span) (omega arith)
]

length-scan_literal :
    (p s rest : Bytes) → scan_literal p s ≡ some rest → length p + length rest ≡ length s
unfolding scan_literal
length-scan_literal [] s rest e =
    let same : s ≡ rest = cc e in omega (arith, ap (λ (x : Bytes). length x) same)
length-scan_literal (p ∷ ps) [] rest e = absurd (cc e)
length-scan_literal (p ∷ ps) (c ∷ s) rest e = elim (Bool-cases (p == c)) [
  | inl same ↦
      let f : scan_literal ps s ≡ some rest = cc (e, same) in
      omega (arith, length-scan_literal ps s rest f)
  | inr other ↦ absurd (cc (e, other))
]

length-local_ip :
    (stale url : Bytes) → length stale < 100 → length url < 100 → length (local_ip stale url) < 100
unfolding local_ip
length-local_ip stale url old small = elim (Option-cases (scan_literal (bytes "rtsp://") url)) [
  | inl none_there ↦ rw (none_there, local_ip) old
  | inr (rest, there) ↦
      rw (there, local_ip)
        (elim (Bool-cases (is_empty (span (λ c. not (c == b':')) rest).0)) [
          | inl empty ↦ rw empty old
          | inr host ↦ rw host (
              omega (
                arith,
                length-span (λ c. not (c == b':')) rest,
                length-scan_literal (bytes "rtsp://") url rest there,
              ))
        ])
]

length-sdp :
    (profile : Bytes) (now : ℤ) (ip : Bytes)
    → length (sdp profile now ip) ≡ 270 + length (show_int now) + length ip + 2 * length profile
unfolding sdp
length-sdp profile now ip = simp length-append (omega arith)

-- The answer ends with the length of a text and this text, which leaves room in the 500 bytes of `sdp`, as the
-- answer does in its buffer.
abbrev pub Fits : Bytes → Type 0
Fits reply =
    (front : Bytes) × (text : Bytes) × (reply
      ≡ front
        ++ (bytes "\r\nContent-length: "
            ++ (show_int (pos (length text)) ++ (bytes "\r\n\r\n" ++ text))))
    × (length text < 500)
    × (length reply < 1000)

describe-Fits :
    (cseq : ℤ) (url text : Bytes)
    → IsShort 9 cseq
    → length url < 100
    → length text < 500
    → Fits (describe cseq url text)
unfolding describe
describe-Fits cseq url text c u t = (front, text, split, t, short)
  where
    front : Bytes
    front =
        bytes "RTSP/1.0 200 OK\r\nCSeq: "
        ++ (show_int cseq
            ++ (bytes "\r\nContent-Base: " ++ (url ++ bytes "\r\nContent-type: application/sdp")))

    split :
        describe cseq url text
        ≡ front
          ++ (bytes "\r\nContent-length: "
              ++ (show_int (pos (length text)) ++ (bytes "\r\n\r\n" ++ text)))
    split = simp append_assoc

    short : length (describe cseq url text) < 1000
    short = simp length-append (
        omega (
          arith,
          u,
          t,
          show_int-width cseq 9 c,
          show_int-width (pos (length text)) 2 (omega (arith, t)),
        ))

-- For a URL of less than 100 bytes, as the buffer for it has, a time of at most 19 digits and a
-- sequence number of at most 10, and a buffer for the address with a text of less than 100 bytes
-- in it: `handleCmd_DESCRIBE` and `handleCmd_DESCRIBE_TCP` store less than 100 bytes in `localIp`
-- and less than 500 in `sdp`, and print an answer of less than 1000 bytes, which ends with the
-- length of the description behind `Content-length: ` and the description.
pub handle_describe-Fits :
    (stale : Bytes) (now cseq : ℤ) (url : Bytes)
    → length stale < 100
    → length url < 100
    → IsShort 18 now
    → IsShort 9 cseq
    → Fits (handle_describe stale now cseq url)
      × Fits (handle_describe_tcp stale now cseq url)
      × (length (local_ip stale url) < 100)
unfolding handle_describe handle_describe_tcp
handle_describe-Fits stale now cseq url old small n c =
    let ip = length-local_ip stale url old small in
    let w = show_int-width now 18 n in
    (
      describe-Fits cseq url (sdp (bytes "RTP/AVP") now (local_ip stale url)) c small
          (omega (arith, length-sdp (bytes "RTP/AVP") now (local_ip stale url), ip, w)),
      describe-Fits cseq url (sdp (bytes "RTP/AVP/TCP") now (local_ip stale url)) c small
          (omega (arith, length-sdp (bytes "RTP/AVP/TCP") now (local_ip stale url), ip, w)),
      ip,
    )
