-- ===== src/Tokens/Resolved.antt =====
-- What holds of a token that the registry resolves.
use ulmara_backend.Common.{true, ℕ, ◌≡◌}
use ulmara_backend.World.{Chain}
use ulmara_backend.Json.{Json}
use ulmara_backend.Tokens.{TokenConfig, TokenOverride, is_hex_address}

-- The token is for a network, and its contract has a well-formed address.
abbrev pub IsFor : Chain → ℕ → TokenConfig → Type 0
IsFor chain id t = (t.chain ≡ chain) × (t.chain_id ≡ id) × (is_hex_address t.address ≡ true)

abbrev IsAddressed : TokenConfig → Type 0
IsAddressed t = is_hex_address t.address ≡ true

abbrev IsOverride : TokenOverride → Type 0
IsOverride o = is_hex_address o.address ≡ true
