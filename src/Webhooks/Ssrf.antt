-- ===== src/Webhooks/Ssrf.antt =====
-- packages/webhooks/src/ssrf.ts: which addresses a webhook may be sent to.
use cloud_mesh.Common.{ℕ, ◌+◌, ◌-◌, ◌*◌, ◌%◌, ◌^◌, Bool, not, List, [], ◌∷◌, any, ◌==◌}

-- An IPv4 address: its four octets, each below 256.
pub record Ipv4 : Type 0 where
  pub a : ℕ
  pub b : ℕ
  pub c : ℕ
  pub d : ℕ

-- `<<` and `|` of octets, which have no bit in common.
unfoldable pub ipv4_to_int : Ipv4 → ℕ
ipv4_to_int ip = ip.a * 16777216 + ip.b * 65536 + ip.c * 256 + ip.d

-- `address & mask`, where the mask has the upper `bits` of 32 bits: the lower bits are cleared.
abbrev pub masked : ℕ → ℕ → ℕ
masked bits address = address - address % 2 ^ (32 - bits)

unfoldable pub in_cidr : ℕ → Ipv4 → ℕ → Bool
unfolding ipv4_to_int
in_cidr address base bits = masked bits address == masked bits (ipv4_to_int base)

abbrev pub ip : ℕ → ℕ → ℕ → ℕ → Ipv4
ip a b c d = record { a = a; b = b; c = c; d = d }

pub record Cidr : Type 0 where
  pub base : Ipv4
  pub bits : ℕ

abbrev pub cidr : Ipv4 → ℕ → Cidr
cidr base bits = record { base = base; bits = bits }

abbrev pub blocked : List Cidr
blocked =
    cidr (ip 10 0 0 0) 8
    ∷ cidr (ip 172 16 0 0) 12
    ∷ cidr (ip 192 168 0 0) 16
    ∷ cidr (ip 127 0 0 0) 8
    ∷ cidr (ip 169 254 0 0) 16
    ∷ cidr (ip 0 0 0 0) 8
    ∷ cidr (ip 100 64 0 0) 10
    ∷ cidr (ip 224 0 0 0) 4
    ∷ []

unfoldable pub is_safe_ipv4 : Ipv4 → Bool
unfolding in_cidr
is_safe_ipv4 address = not (any (λ r. in_cidr (ipv4_to_int address) r.base r.bits) blocked)
