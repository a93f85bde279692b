-- ===== src/Relay/Ports.antt =====
-- relay_server.py: the ports of a session.
use ge360_bridge.Base.{ℕ, ◌+◌, ◌≤◌, ◌≡◌, false, ◌==◌, List, All}
use ge360_bridge.Relay.Sessions.{Settings, Draw}

-- What `secrets.randbelow(UDP_END - UDP_START + 1)` gives.
abbrev pub IsBelow : Settings → List Draw → Type 0
IsBelow c ds =
    All (λ (d : Draw). (d.first + c.udp_start ≤ c.udp_end) × (d.second + c.udp_start ≤ c.udp_end))
      ds

abbrev pub ArePorts : Settings → ℕ → ℕ → Type 0
ArePorts c a b =
    (1024 ≤ a)
    × (a ≤ 65535)
    × (1024 ≤ b)
    × (b ≤ 65535)
    × (c.udp_start ≤ a)
    × (a ≤ c.udp_end)
    × (c.udp_start ≤ b)
    × (b ≤ c.udp_end)
    × ((a == b) ≡ false)
