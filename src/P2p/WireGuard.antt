-- ===== src/P2p/WireGuard.antt =====
-- p2p.py: the `wg` commands on the interface.
use ge360_bridge.Base.{
  ℕ, ◌==◌, ◌&&◌, ◌||◌, Bool, Option, none, some, List, [], ◌∷◌, ◌++◌, leb, if◌then◌else◌,
}
use ge360_bridge.Base.Text.{Text, text, text_eq, lower, is_space}
use ge360_bridge.Core.Data.{Result, ok, err, p2p_endpoint_failed}
use ge360_bridge.SelfHeal.Heal.{Completed}
use ge360_bridge.P2p.Sessions.{Tables}

-- What lies outside: the commands, the sleep and the clock; how `str` writes a number, and how
-- `int` reads one (`none` where it raises).
pub record Host (W : Type 0) : Type 0 where
  pub run : List Text → W → Completed × W
  pub sleep : ℕ → W → W
  pub now : W → ℕ
  pub to_text : ℕ → Text
  pub to_int : Text → Option ℕ

-- A `wg set` of the endpoint of a peer.
pub record SetEndpoint : Type 0 where
  pub public_key : Text
  pub endpoint : Text
  pub keepalive : ℕ

-- The tables and the world. `set_endpoints` is kept for the theorems alone: every `wg set` issued,
-- with the latest first, and whether it worked or not.
pub record Runtime (W : Type 0) : Type 0 where
  pub tables : Tables
  pub set_endpoints : List SetEndpoint
  pub world : W

abbrev pub is_line_break : ℕ → Bool
is_line_break d =
    (leb 10 d && leb d 13) || ((leb 28 d && leb d 30) || (d == 133 || (d == 8232 || d == 8233)))

-- A word that is not empty, before the ones that follow.
abbrev pub push_word : Text → List Text → List Text
push_word [] ws = ws
push_word (d ∷ t) ws = (d ∷ t) ∷ ws

-- `s.split()`, with the word so far.
unfoldable pub split_words : Text → Text → List Text
unfolding is_space
split_words word [] = push_word word []
split_words word (d ∷ s) =
    let rest = split_words [] s in
    let longer = split_words (word ++ d ∷ []) s in
    if is_space d then push_word word rest else longer

-- `s.splitlines()`, with the line so far; an empty line adds nothing to what is searched.
unfoldable pub split_lines : Text → Text → List Text
split_lines line [] = line ∷ []
split_lines line (d ∷ s) =
    let rest = split_lines [] s in
    let longer = split_lines (line ++ d ∷ []) s in if is_line_break d then line ∷ rest else longer

-- The second word of a line that begins with the key and has one.
unfoldable pub field_of : Text → List Text → Option Text
field_of public_key [] = none
field_of public_key (w ∷ []) = none
field_of public_key (w ∷ v ∷ ws) = if text_eq w public_key then some v else none

unfoldable pub peer_field : Text → List Text → Option Text
unfolding split_words field_of
peer_field public_key [] = none
peer_field public_key (line ∷ lines) =
    let rest = peer_field public_key lines in
    elim (field_of public_key (split_words [] line)) [ none ↦ rest | some v ↦ some v ]

module _ {W : Type 0} (h : Host W) where
  -- The value of the peer in the table that `wg show wg0 WHAT` prints.
  unfoldable pub show_peer : Text → Text → Runtime W → Option Text × Runtime W
  unfolding peer_field split_lines
  show_peer what public_key s =
      let (proc, w) = h.run (text "wg" ∷ text "show" ∷ text "wg0" ∷ what ∷ []) s.world in
      (
        if proc.returncode == 0 then peer_field public_key (split_lines [] proc.stdout) else none,
        record s { world = w },
      )

  abbrev read_number : Option Text → ℕ
  read_number none = 0
  read_number (some v) = elim (h.to_int v) [ none ↦ 0 | some n ↦ n ]

  unfoldable pub latest_handshake : Text → Runtime W → ℕ × Runtime W
  unfolding show_peer
  latest_handshake public_key s =
      let (v, s') = show_peer (text "latest-handshakes") public_key s in (read_number v, s')

  abbrev endpoint_or_none : Option Text → Option Text
  endpoint_or_none none = none
  endpoint_or_none (some v) =
      if text_eq v (text "(none)") || text_eq v (text "off") then none else some v

  unfoldable pub current_endpoint : Text → Runtime W → Option Text × Runtime W
  unfolding show_peer
  current_endpoint public_key s =
      let (v, s') = show_peer (text "endpoints") public_key s in (endpoint_or_none v, s')

  abbrev keepalive_of : Option Text → ℕ
  keepalive_of none = 0
  keepalive_of (some v) =
      if text_eq (lower v) (text "off") || text_eq (lower v) (text "0")
      then 0
      else read_number (some (lower v))

  unfoldable pub current_keepalive : Text → Runtime W → ℕ × Runtime W
  unfolding show_peer
  current_keepalive public_key s =
      let (v, s') = show_peer (text "persistent-keepalive") public_key s in (keepalive_of v, s')

  unfoldable pub set_peer_endpoint : Text → Text → ℕ → Runtime W → Result (Unit {0}) × Runtime W
  set_peer_endpoint public_key endpoint keepalive s =
      let (proc, w) =
        h.run
          (text "wg"
            ∷ text "set"
            ∷ text "wg0"
            ∷ text "peer"
            ∷ public_key
            ∷ text "endpoint"
            ∷ endpoint
            ∷ text "persistent-keepalive"
            ∷ h.to_text keepalive
            ∷ [])
          s.world in
      (
        if proc.returncode == 0 then ok tt else err p2p_endpoint_failed,
        record s {
          world = w;
          set_endpoints =
              (record { public_key = public_key; endpoint = endpoint; keepalive = keepalive })
              ∷ s.set_endpoints;
        },
      )

  unfoldable pub trigger_wireguard : Text → Runtime W → Runtime W
  trigger_wireguard vpn_ip s =
      let (proc, w) =
        h.run (text "ping" ∷ text "-c" ∷ text "1" ∷ text "-W" ∷ text "1" ∷ vpn_ip ∷ []) s.world in
      record s { world = w }
