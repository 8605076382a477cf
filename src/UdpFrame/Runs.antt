-- ===== src/UdpFrame/Runs.antt =====
-- The frame's theorem at a concrete datagram.
use drawbridge.Base.{ℕ, ◌≡◌, some, List, [], ◌∷◌, ◌++◌, arith}
use drawbridge.MacSync.Listeners.{ip4}
use drawbridge.UdpFrame.Frame.{AddrPort, write_frame, read_frame, datagram}
use drawbridge.UdpFrame.RoundTrip.{read_frame-write_frame}

abbrev guest : AddrPort
guest = record { addr = ip4 0x0a000002; port = 40000 }

read_frame-write_frame_example :
    (bs : List ℕ) × (write_frame guest (1 ∷ 2 ∷ 3 ∷ []) ≡ some bs)
    × (read_frame (bs ++ 9 ∷ []) ≡ (datagram guest (1 ∷ 2 ∷ 3 ∷ []), 9 ∷ []))
read_frame-write_frame_example =
    read_frame-write_frame guest (1 ∷ 2 ∷ 3 ∷ []) (9 ∷ []) (omega arith) (omega arith) (omega arith)
      (omega arith)
