-- ===== src/Webhooks/Ranges.antt =====
-- The blocked IPv4 ranges, octet by octet.
use cloud_mesh.Common.{ℕ, ◌+◌, ◌-◌, ◌*◌, ◌%◌, ◌<◌, ◌≡◌, Bool, not, ◌&&◌, ◌||◌, ◌==◌, arith}
use cloud_mesh.Webhooks.{in_range}
use cloud_mesh.Webhooks.Ssrf.{Ipv4, ip, ipv4_to_int, in_cidr, masked, is_safe_ipv4}

pub record IsAddress (p : Ipv4) : Type 0 where
  pub a_octet : p.a < 256
  pub b_octet : p.b < 256
  pub c_octet : p.c < 256
  pub d_octet : p.d < 256

masked-8 : (p : Ipv4) → IsAddress p → masked 8 (ipv4_to_int p) ≡ p.a * 16777216
unfolding ipv4_to_int
masked-8 p v = omega (arith, v.b_octet, v.c_octet, v.d_octet)

masked-16 : (p : Ipv4) → IsAddress p → masked 16 (ipv4_to_int p) ≡ p.a * 16777216 + p.b * 65536
unfolding ipv4_to_int
masked-16 p v = omega (arith, v.b_octet, v.c_octet, v.d_octet)

masked-12 :
    (p : Ipv4) → IsAddress p → masked 12 (ipv4_to_int p) ≡ p.a * 16777216 + (p.b - p.b % 16) * 65536
unfolding ipv4_to_int
masked-12 p v = omega (arith, v.b_octet, v.c_octet, v.d_octet)

masked-10 :
    (p : Ipv4) → IsAddress p → masked 10 (ipv4_to_int p) ≡ p.a * 16777216 + (p.b - p.b % 64) * 65536
unfolding ipv4_to_int
masked-10 p v = omega (arith, v.b_octet, v.c_octet, v.d_octet)

masked-4 : (p : Ipv4) → IsAddress p → masked 4 (ipv4_to_int p) ≡ (p.a - p.a % 16) * 16777216
unfolding ipv4_to_int
masked-4 p v = omega (arith, v.b_octet, v.c_octet, v.d_octet)

in_cidr-8 :
    (n : ℕ) (p : Ipv4) → n < 256 → IsAddress p → in_cidr (ipv4_to_int p) (ip n 0 0 0) 8 ≡ (p.a == n)
unfolding in_cidr
in_cidr-8 n p h v =
    rw
      (
        masked-8 p v,
        masked-8 (ip n 0 0 0) (record {
          a_octet = h;
          b_octet = omega arith;
          c_octet = omega arith;
          d_octet = omega arith;
        }),
      )
      (ground arith)

in_cidr-16 :
    (n m : ℕ) (p : Ipv4)
    → n < 256
    → m < 256
    → IsAddress p
    → in_cidr (ipv4_to_int p) (ip n m 0 0) 16 ≡ ((p.a == n) && (p.b == m))
unfolding in_cidr
in_cidr-16 n m p h h' v =
    let base : IsAddress (ip n m 0 0) = record {
      a_octet = h;
      b_octet = h';
      c_octet = omega arith;
      d_octet = omega arith;
    } in
    rw (masked-16 p v, masked-16 (ip n m 0 0) base) (ground (arith, v.b_octet))

in_cidr-172 :
    (p : Ipv4)
    → IsAddress p
    → in_cidr (ipv4_to_int p) (ip 172 16 0 0) 12 ≡ ((p.a == 172) && in_range 16 32 p.b)
unfolding in_cidr ipv4_to_int
in_cidr-172 p v = rw (masked-12 p v) (ground (arith, v.b_octet))

in_cidr-100 :
    (p : Ipv4)
    → IsAddress p
    → in_cidr (ipv4_to_int p) (ip 100 64 0 0) 10 ≡ ((p.a == 100) && in_range 64 128 p.b)
unfolding in_cidr ipv4_to_int
in_cidr-100 p v = rw (masked-10 p v) (ground (arith, v.b_octet))

in_cidr-224 :
    (p : Ipv4) → IsAddress p → in_cidr (ipv4_to_int p) (ip 224 0 0 0) 4 ≡ in_range 224 240 p.a
unfolding in_cidr ipv4_to_int
in_cidr-224 p v = rw (masked-4 p v) (ground (arith, v.b_octet))

-- The reserved addresses, by their first two octets: "this network", private, carrier-grade NAT,
-- loopback, link-local, private, private and multicast.
abbrev pub is_reserved : ℕ → ℕ → Bool
is_reserved a b =
    (a == 0)
    || (a == 10)
    || (a == 127)
    || (a == 100) && in_range 64 128 b
    || (a == 169) && (b == 254)
    || (a == 172) && in_range 16 32 b
    || (a == 192) && (b == 168)
    || in_range 224 240 a

-- An IPv4 address passes the guard exactly if its first two octets are not reserved.
pub is_safe_ipv4-is_reserved : (p : Ipv4) → IsAddress p → is_safe_ipv4 p ≡ not (is_reserved p.a p.b)
unfolding is_safe_ipv4
is_safe_ipv4-is_reserved p v = ground (
  arith,
  in_cidr-8 10 p (omega arith) v,
  in_cidr-172 p v,
  in_cidr-16 192 168 p (omega arith) (omega arith) v,
  in_cidr-8 127 p (omega arith) v,
  in_cidr-16 169 254 p (omega arith) (omega arith) v,
  in_cidr-8 0 p (omega arith) v,
  in_cidr-100 p v,
  in_cidr-224 p v,
)
