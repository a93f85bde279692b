-- ===== src/Relay/Steps.antt =====
-- relay_server.py: every request, datagram and sweep keeps the sessions sound.
use ge360_bridge.Base.{Option}
use ge360_bridge.Base.Text.{Text}
use ge360_bridge.Core.Data.{Stdlib}
use ge360_bridge.Relay.Sessions.{Settings}
use ge360_bridge.Relay.Handlers.{Relay, Reply}
use ge360_bridge.Relay.Invariant.{IsSound}

module _ (lib : Stdlib) (c : Settings) (admin_token : Text) (global_ip : Text → Option Text) where
  abbrev Sound : Reply × Relay → Type 0
  Sound x = IsSound c x.1.sessions
