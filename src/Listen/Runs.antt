-- ===== src/Listen/Runs.antt =====
-- The theorems of the transport's listeners at concrete machines.
use drawbridge.Base.{◌≡◌, refl, true, false, none, some, List, [], ◌∷◌, keep}
use drawbridge.Limiter.{new_limiter}
use drawbridge.MacSync.Listeners.{ip4, unmap}
use drawbridge.Listen.Prefix.{Prefix, prefix_from, masked, next, prefix_contains}
use drawbridge.Listen.Vznat.{
  Iface, is_candidate, first_host, pick_loop, pick_round, pick_vznat, net_prefix, net_addrs,
  iface_addrs, candidates, vznat_prefix,
}
use drawbridge.Listen.Guard.{
  Inner, source_comes, host_prefix, Guarded, comes, accept, TransportListeners, auto_round,
}
use drawbridge.Listen.Lowest.{lowest, answer, vznat_prefix-lowest}
use drawbridge.Listen.First.{
  first_welcome, sources_then, strangers, pushed, Reaches, accept-first, auto_round-Reaches,
}

-- A docker bridge, Lima's usernet and the vzNAT address, in this order.
abbrev machine : List Iface
machine =
    record {
      index = 2;
      name = "docker0";
      is_loop = false;
      is_up = true;
      nets = some (some (record { ip = ip4 0xac110001; ones = 16 }) ∷ []);
    }
    ∷ record {
      index = 3;
      name = "eth0";
      is_loop = false;
      is_up = true;
      nets = some (none ∷ some (record { ip = ip4 0xc0a8050f; ones = 24 }) ∷ []);
    }
    ∷ record {
      index = 4;
      name = "lima0";
      is_loop = false;
      is_up = true;
      nets = some (some (record { ip = ip4 0xc0a84005; ones = 24 }) ∷ []);
    }
    ∷ []

abbrev vznat : Prefix
vznat = record { addr = ip4 0xc0a84005; bits_plus_one = 25 }

vznat_prefix-lowest_example :
    vznat_prefix (some machine) ≡ answer (lowest (keep is_candidate (candidates machine)))
vznat_prefix-lowest_example = vznat_prefix-lowest machine

finds_vznat : vznat_prefix (some machine) ≡ (vznat, true)
unfolding vznat_prefix pick_vznat pick_loop pick_round is_candidate candidates iface_addrs net_addrs
    net_prefix prefix_from prefix_contains first_host masked next unmap
finds_vznat = refl

abbrev listeners : TransportListeners
listeners = record {
  sources = [];
  lns = ip4 0x7f000001 ∷ [];
  shut_lns = [];
  is_closed = false;
  has_publisher = true;
  published = [];
}

auto_round-Reaches_runs :
    ((auto_round (some machine) true listeners).1 ≡ true)
    × Reaches (ip4 0xc0a84005) 0xc0a84001 listeners (auto_round (some machine) true listeners).0
auto_round-Reaches_runs =
    auto_round-Reaches machine vznat 0xc0a84001 listeners finds_vznat
      (unfold first_host masked next in refl) refl

abbrev guarded : Guarded
guarded = record {
  sources = record { addr = ip4 0xc0a84001; bits_plus_one = 33 } ∷ [];
  limit = new_limiter 60_000_000_000;
  shut_conns = [];
  lines = [];
}

-- A container, a source that comes meanwhile, a machine of its network, and the Mac.
abbrev arrivals : List Inner
arrivals =
    comes 0 (some (ip4 0xac110002)) 5
    ∷ source_comes (host_prefix (ip4 0xac110003))
    ∷ comes 1 (some (ip4 0xac110003)) 6
    ∷ comes 2 (some (ip4 0xc0a84001)) 7
    ∷ []

accept-first_example :
    ((accept arrivals guarded).1 ≡ first_welcome guarded.sources arrivals)
    × ((accept arrivals guarded).0.shut_conns ≡ pushed (strangers guarded.sources arrivals) [])
    × ((accept arrivals guarded).0.sources ≡ sources_then guarded.sources arrivals)
accept-first_example = accept-first arrivals guarded
