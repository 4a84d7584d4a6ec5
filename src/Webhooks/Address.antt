-- ===== src/Webhooks/Address.antt =====
-- packages/webhooks/src/ssrf.ts: the guard, from the text of a URL to the verdict. URL parsing, `isIP` and
-- the name server's answer are arguments.
use Prim.Native.String.{String, [] as empty, ◌∷◌ as ◌then◌, ◌++◌ as ◌+++◌}
use Prim.Native.Char.{Char, code}
use cloud_mesh.Common.{
  ℕ, ◌+◌, ◌-◌, ◌*◌, ◌/◌, ◌%◌, Bool, true, false, ◌&&◌, ◌||◌, Option, none, some, List, [], ◌∷◌, leb,
  ltb, ◌==◌, any, get_or, get_elem?, str_eq, is_some, if◌then◌else◌, ◌>>=◌,
}
use cloud_mesh.Webhooks.Ssrf.{Ipv4, is_safe_ipv4}

abbrev pub before_first : Char → List String → List String
before_first c [] = (c then empty) ∷ []
before_first c (part ∷ parts) = (c then part) ∷ parts

-- `s.split(...)` at a character, given by its code.
abbrev pub split_at : ℕ → String → List String
split_at separator empty = empty ∷ []
split_at separator (c then s) =
    let parts = split_at separator s in
    if code c == separator then empty ∷ parts else before_first c parts

-- Lower-case hexadecimal digits, of which the decimal ones are a part.
abbrev pub digit_value : Char → Option ℕ
digit_value c =
    if leb 48 (code c) && leb (code c) 57
    then some (code c - 48)
    else if leb 97 (code c) && leb (code c) 102
    then some (code c - 87)
    else none

-- The number that a text of digits below `base` is, after those of `acc`; `none` on another character.
abbrev pub digits_from : ℕ → ℕ → String → Option ℕ
digits_from base acc empty = some acc
digits_from base acc (c then s) =
    digit_value c
    >>= (λ v. let rest = digits_from base (acc * base + v) s in if ltb v base then rest else none)

abbrev pub digits : ℕ → String → Option ℕ
digits base empty = none
digits base (c then s) = digits_from base 0 (c then s)

abbrev pub octet_of : Option String → ℕ
octet_of none = 0
octet_of (some s) = get_or (digits 10 s) 0

-- `ip.split(".").map(Number)`, where a part that is missing or no number counts as 0 in `<<`.
abbrev pub ipv4_of : String → Ipv4
ipv4_of s =
    let parts = split_at 46 s in
    record {
      a = octet_of (get_elem? parts 0);
      b = octet_of (get_elem? parts 1);
      c = octet_of (get_elem? parts 2);
      d = octet_of (get_elem? parts 3);
    }

abbrev pub after_prefix : String → String → Option String
after_prefix empty s = some s
after_prefix (p then ps) empty = none
after_prefix (p then ps) (c then s) =
    let rest = after_prefix ps s in if code p == code c then rest else none

-- `\d+\.\d+\.\d+\.\d+`.
abbrev pub is_dotted : List String → Bool
is_dotted (a ∷ b ∷ c ∷ d ∷ []) =
    is_some (digits 10 a)
    && (is_some (digits 10 b) && (is_some (digits 10 c) && is_some (digits 10 d)))
is_dotted _ = false

-- `[0-9a-f]{1,4}`, as its number.
abbrev pub hex_group : String → Option ℕ
hex_group empty = none
hex_group (a then empty) = digits 16 (a then empty)
hex_group (a then b then empty) = digits 16 (a then b then empty)
hex_group (a then b then c then empty) = digits 16 (a then b then c then empty)
hex_group (a then b then c then d then empty) = digits 16 (a then b then c then d then empty)
hex_group _ = none

-- `(high >> 8) & 0xff` and its like, for groups of 16 bits.
abbrev pub of_groups : ℕ → ℕ → Ipv4
of_groups high low = record {
  a = high / 256 % 256;
  b = high % 256;
  c = low / 256 % 256;
  d = low % 256;
}

abbrev pub mapped_groups : List String → Option Ipv4
mapped_groups (high ∷ low ∷ []) =
    hex_group high >>= (λ h. hex_group low >>= (λ l. some (of_groups h l)))
mapped_groups _ = none

unfoldable pub unwrap_ipv4_mapped : String → Option Ipv4
unwrap_ipv4_mapped normalized =
    after_prefix "::ffff:" normalized
    >>= (λ s. if is_dotted (split_at 46 s) then some (ipv4_of s) else mapped_groups (split_at 58 s))

abbrev pub begins_with : String → String → Bool
begins_with s p = is_some (after_prefix p s)

abbrev pub is_local : String → Bool
is_local s =
    str_eq s "::1"
    || (str_eq s "::" || any (begins_with s) ("fe8" ∷ "fe9" ∷ "fea" ∷ "feb" ∷ "fc" ∷ "fd" ∷ []))

abbrev pub safe_unless : Bool → Option Ipv4 → Bool
safe_unless local (some v4) = is_safe_ipv4 v4
safe_unless local none = if local then false else true

-- From the lower-case text on.
unfoldable pub is_safe_ipv6 : String → Bool
unfolding unwrap_ipv4_mapped
is_safe_ipv6 normalized = safe_unless (is_local normalized) (unwrap_ipv4_mapped normalized)

pub data SsrfCheck : Type 0 where
  safe : SsrfCheck
  unsafe : String → SsrfCheck

pub record Url : Type 0 where
  pub protocol : String
  pub hostname : String

abbrev pub drop_first_bracket : String → String
drop_first_bracket empty = empty
drop_first_bracket (c then s) = if code c == 91 then s else c then s

abbrev pub drop_last_bracket : String → String
drop_last_bracket empty = empty
drop_last_bracket (c then empty) = if code c == 93 then empty else c then empty
drop_last_bracket (c then d then s) = c then drop_last_bracket (d then s)

abbrev pub unsafe_reason : String → String
unsafe_reason address = "resolves to a disallowed address (" +++ (address +++ ")")

-- `resolve` is the name server, which fails or gives addresses.
module _ (parse_url : String → Option Url) (is_ip : String → ℕ) (to_lower_case : String → String)
    (resolve : String → Option (List String)) where
  abbrev pub check_address : String → Bool
  check_address address =
      if is_ip address == 4
      then is_safe_ipv4 (ipv4_of address)
      else if is_ip address == 6
      then is_safe_ipv6 (to_lower_case address)
      else false

  abbrev pub check_all : List String → SsrfCheck
  check_all [] = safe
  check_all (address ∷ more) =
      if check_address address then check_all more else unsafe (unsafe_reason address)

  abbrev pub check_resolved : Option (List String) → SsrfCheck
  check_resolved none = unsafe "hostname does not resolve"
  check_resolved (some []) = unsafe "hostname does not resolve"
  check_resolved (some (address ∷ more)) = check_all (address ∷ more)

  abbrev pub check_host : String → SsrfCheck
  check_host hostname =
      if is_ip hostname == 0
      then check_resolved (resolve hostname)
      else if check_address hostname
      then safe
      else unsafe (unsafe_reason hostname)

  abbrev pub check_url : Option Url → SsrfCheck
  check_url none = unsafe "not a valid URL"
  check_url (some url) =
      if str_eq url.protocol "https:"
      then check_host (drop_last_bracket (drop_first_bracket url.hostname))
      else unsafe "only https URLs are allowed"

  unfoldable pub is_safe_webhook_target : String → SsrfCheck
  unfolding is_safe_ipv6
  is_safe_webhook_target raw_url = check_url (parse_url raw_url)
