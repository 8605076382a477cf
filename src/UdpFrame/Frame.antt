-- ===== src/UdpFrame/Frame.antt =====
-- WriteFrame and ReadFrame.
use drawbridge.Base.{
  ℕ, ◌+◌, ◌*◌, ◌^◌, not, Option, none, some, List, [], ◌∷◌, ◌++◌, eqb, leb, ltb, if◌then◌else◌,
  length, take, drop, get_or,
}
use drawbridge.MacSync.Listeners.{Addr, no_addr, ip4, ip6, unmap}
use drawbridge.UdpFrame.Numbers.{be_bytes, be_value}

abbrev pub header_len : ℕ
header_len = 21

abbrev pub max_payload : ℕ
max_payload = 65507

-- netip.AddrPort
pub record AddrPort : Type 0 where
  pub addr : Addr
  pub port : ℕ

-- Addr.As16, as the number of its 16 bytes.
abbrev pub as16 : Addr → ℕ
as16 no_addr = 0
as16 (ip4 n) = 0xffff * 2 ^ 32 + n
as16 (ip6 n z) = n

-- The header: the length, the flags, the address and the port.
unfoldable pub header : ℕ → ℕ → ℕ → List ℕ
header n a16 port = be_bytes 2 n ++ 0 ∷ (be_bytes 16 a16 ++ be_bytes 2 port)

-- WriteFrame: the bytes of its one Write, or an error.
unfoldable pub write_frame : AddrPort → List ℕ → Option (List ℕ)
write_frame peer payload =
    if ltb max_payload (length payload)
    then none
    else if eqb peer.port 0
    then none
    else some (header (length payload) (as16 peer.addr) peer.port ++ payload)

-- What ReadFrame returns: a datagram, an error of the stream, or a header that is malformed.
pub data Read : Type 0 where
  datagram : AddrPort → List ℕ → Read
  io_error : Read
  malformed : Read

-- The header's checks, then the payload from what is left of the stream.
unfoldable pub read_body : List ℕ → List ℕ → Read × List ℕ
read_body hdr rest =
    let n = be_value 0 (take 2 hdr) in
    let port = be_value 0 (drop 19 hdr) in
    let addr = unmap (ip6 (be_value 0 (take 16 (drop 3 hdr))) "") in
    if ltb max_payload n
    then (malformed, rest)
    else if not (eqb (get_or hdr 2 0) 0)
    then (malformed, rest)
    else if eqb port 0
    then (malformed, rest)
    else if leb n (length rest)
    then (datagram (record { addr = addr; port = port }) (take n rest), drop n rest)
    else (io_error, [])

-- ReadFrame, and the stream after it.
unfoldable pub read_frame : List ℕ → Read × List ℕ
read_frame stream =
    if leb header_len (length stream)
    then read_body (take header_len stream) (drop header_len stream)
    else (io_error, [])
