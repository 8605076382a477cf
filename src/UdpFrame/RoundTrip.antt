-- ===== src/UdpFrame/RoundTrip.antt =====
-- What is framed is read back.
use mathlib.Core.List.{append_assoc}
use drawbridge.Base.{
  ℕ, ◌^◌, ◌<◌, ◌≤◌, ◌≡◌, ◌≢◌, refl, ap, ◌∙◌, true, some, List, ◌++◌, leb, length, take, drop,
  get_or, take-append, drop-append, length-append, arith,
}
use drawbridge.MacSync.Listeners.{Addr, no_addr, ip4, ip6, unmap, v6_any}
use drawbridge.UdpFrame.Numbers.{be_bytes, be_value, be_value-be_bytes}
use drawbridge.UdpFrame.Frame.{
  AddrPort, as16, header, max_payload, write_frame, datagram, read_body, read_frame,
}

-- The number fits the 4 or 16 bytes of an address.
abbrev pub Fits : Addr → Type 0
Fits no_addr = true ≡ true
Fits (ip4 n) = n < 2 ^ 32
Fits (ip6 n z) = n < 2 ^ 128

-- The peer as the frame can carry it: without its zone, and unmapped.
abbrev pub carried : Addr → Addr
carried no_addr = v6_any
carried (ip4 n) = ip4 n
carried (ip6 n z) = unmap (ip6 n "")

length-header : (n a16 port : ℕ) → length (header n a16 port) ≡ 21
unfolding header be_bytes
length-header n a16 port = refl

header-length : (n a16 port : ℕ) → n < 65536 → be_value 0 (take 2 (header n a16 port)) ≡ n
unfolding header be_bytes
header-length n a16 port h = be_value-be_bytes 2 n h

header-address :
    (n a16 port : ℕ) → a16 < 2 ^ 128 → be_value 0 (take 16 (drop 3 (header n a16 port))) ≡ a16
unfolding header be_bytes
header-address n a16 port h = be_value-be_bytes 16 a16 h

header-port : (n a16 port : ℕ) → port < 65536 → be_value 0 (drop 19 (header n a16 port)) ≡ port
unfolding header be_bytes
header-port n a16 port h = be_value-be_bytes 2 port h

header-flags : (n a16 port : ℕ) → get_or (header n a16 port) 2 0 ≡ 0
unfolding header be_bytes
header-flags n a16 port = refl

read_body-header :
    (n a16 port : ℕ) (rest : List ℕ)
    → n ≤ max_payload
    → a16 < 2 ^ 128
    → port < 65536
    → port ≢ 0
    → n ≤ length rest
    → read_body (header n a16 port) rest
      ≡ (datagram (record { addr = unmap (ip6 a16 ""); port = port }) (take n rest), drop n rest)
unfolding read_body
read_body-header n a16 port rest small fits portable nonzero there =
    rw (header-length n a16 port (omega arith)) (
      rw (header-address n a16 port fits)
        (rw (header-port n a16 port portable) (rw (header-flags n a16 port) (ground arith))))

as16-Fits : (a : Addr) → Fits a → as16 a < 2 ^ 128
as16-Fits no_addr h = omega arith
as16-Fits (ip4 n) h = omega (arith, h)
as16-Fits (ip6 n z) h = h

unmap-as16 : (a : Addr) → Fits a → unmap (ip6 (as16 a) "") ≡ carried a
unfolding unmap
unmap-as16 no_addr h = ground arith
unmap-as16 (ip4 n) h = ground (arith, h)
unmap-as16 (ip6 n z) h = refl

read_frame-append :
    (hd more : List ℕ) → length hd ≡ 21 → read_frame (hd ++ more) ≡ read_body hd more
unfolding read_frame
read_frame-append hd more h =
    let t : take 21 (hd ++ more) ≡ hd = rw h at (take-append hd more) in
    let d : drop 21 (hd ++ more) ≡ more = rw h at (drop-append hd more) in
    let l : leb 21 (length (hd ++ more)) ≡ true = ground (arith, length-append hd more, h) in
    rw l (rw t (rw d refl))

framed-reads :
    (n a16 port : ℕ) (payload rest : List ℕ)
    → length payload ≡ n
    → n ≤ max_payload
    → a16 < 2 ^ 128
    → port < 65536
    → port ≢ 0
    → read_frame ((header n a16 port ++ payload) ++ rest)
      ≡ (datagram (record { addr = unmap (ip6 a16 ""); port = port }) payload, rest)
framed-reads n a16 port payload rest e small fits portable nonzero =
    let t : take n (payload ++ rest) ≡ payload = rw e at (take-append payload rest) in
    let d : drop n (payload ++ rest) ≡ rest = rw e at (drop-append payload rest) in
    ap read_frame (append_assoc (header n a16 port) payload rest)
    ∙ read_frame-append (header n a16 port) (payload ++ rest) (length-header n a16 port)
    ∙ read_body-header n a16 port (payload ++ rest) small fits portable nonzero
        (omega (arith, length-append payload rest, e))
    ∙ rw t (rw d refl)

-- A datagram of at most 65507 bytes for a peer with a port of 1 to 65535 is written, and read back
-- from the front of any stream: the same bytes, the same port, and the peer's address without its
-- zone, an IPv4 address whether or not it was given in its IPv6 form. What follows it is left.
pub read_frame-write_frame :
    (peer : AddrPort) (payload rest : List ℕ)
    → length payload ≤ max_payload
    → peer.port ≢ 0
    → peer.port < 65536
    → Fits peer.addr
    → (bs : List ℕ) × (write_frame peer payload ≡ some bs)
      × (read_frame (bs ++ rest)
          ≡ (datagram (record { addr = carried peer.addr; port = peer.port }) payload, rest))
unfolding write_frame
read_frame-write_frame peer payload rest small nonzero portable fits = (
  header (length payload) (as16 peer.addr) peer.port ++ payload,
  ground arith,
  framed-reads (length payload) (as16 peer.addr) peer.port payload rest refl small
        (as16-Fits peer.addr fits) portable nonzero
      ∙ ap (λ a. (datagram (record { addr = a; port = peer.port }) payload, rest))
          (unmap-as16 peer.addr fits),
)
