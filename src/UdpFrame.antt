-- ===== src/UdpFrame.antt =====
-- internal/udpframe/frame.go: the datagram frames on a proto-17 stream.
pub mod Numbers
pub mod Frame
pub mod RoundTrip
pub mod Runs
