-- ===== src/Webhooks/Guard.antt =====
-- What a verdict of the guard is worth.
use cloud_mesh.Common.{
  ℕ, ◌==◌, ◌≡◌, refl, String, Bool, true, false, Option, none, some, List, [], ◌∷◌, All, str_eq,
  eq_iff, Bool-cases, ◌⊎◌, inl, inr, ◌≢◌, if◌then◌else◌,
}
use cloud_mesh.Webhooks.Address.{
  Url, SsrfCheck, safe, unsafe, unsafe_reason, drop_first_bracket, drop_last_bracket, check_address,
  check_all, check_resolved, check_host, check_url, is_safe_webhook_target,
}

safe_if :
    (b : Bool) (reason : String) (c : SsrfCheck)
    → (if b then c else unsafe reason) ≡ safe
    → (b ≡ true) × (c ≡ safe)
safe_if true reason c h = (refl, h)
safe_if false reason c h = cc

module _ (parse_url : String → Option Url) (is_ip : String → ℕ) (to_lower_case : String → String)
    (resolve : String → Option (List String)) where
  abbrev pub IsChecked : String → Type 0
  IsChecked address = check_address parse_url is_ip to_lower_case resolve address ≡ true

  -- Either the host is an address, which was checked, or it has addresses and each was.
  abbrev pub IsSafeHost : String → Type 0
  IsSafeHost host =
      IsChecked host
      ⊎ ((addresses : List String) × (resolve host ≡ some addresses)
          × (addresses ≢ [])
          × All IsChecked addresses)

  abbrev pub IsSafeTarget : Option Url → Type 0
  IsSafeTarget none = true ≡ false
  IsSafeTarget (some url) =
      (url.protocol ≡ "https:") × IsSafeHost (drop_last_bracket (drop_first_bracket url.hostname))

  check_all-IsChecked :
      (addresses : List String)
      → check_all parse_url is_ip to_lower_case resolve addresses ≡ safe
      → All IsChecked addresses
  check_all-IsChecked [] h = tt
  check_all-IsChecked (address ∷ more) h =
      let (checked, rest) =
        safe_if (check_address parse_url is_ip to_lower_case resolve address)
          (unsafe_reason address) (check_all parse_url is_ip to_lower_case resolve more) h in
      (checked, check_all-IsChecked more rest)

  check_resolved-IsSafeHost :
      (host : String) (answer : Option (List String))
      → resolve host ≡ answer
      → check_resolved parse_url is_ip to_lower_case resolve answer ≡ safe
      → IsSafeHost host
  check_resolved-IsSafeHost host none is h = cc
  check_resolved-IsSafeHost host (some []) is h = cc
  check_resolved-IsSafeHost host (some (address ∷ more)) is h =
      inr (address ∷ more, is, λ e. cc, check_all-IsChecked (address ∷ more) h)

  check_host-IsSafeHost :
      (host : String)
      → check_host parse_url is_ip to_lower_case resolve host ≡ safe
      → IsSafeHost host
  check_host-IsSafeHost host h = elim (Bool-cases (is_ip host == 0)) [
    | inl name ↦ check_resolved-IsSafeHost host (resolve host) refl (
        let h' : check_resolved parse_url is_ip to_lower_case resolve (resolve host) ≡ safe =
          rw name at h in
        h')
    | inr literal ↦
        inl
          (safe_if (check_address parse_url is_ip to_lower_case resolve host) (unsafe_reason host)
            safe (rw literal at h)).0
  ]

  check_url-IsSafeTarget :
      (url : Option Url)
      → check_url parse_url is_ip to_lower_case resolve url ≡ safe
      → IsSafeTarget url
  check_url-IsSafeTarget none h = cc
  check_url-IsSafeTarget (some url) h =
      let (https, host) = safe_if (str_eq url.protocol "https:") _ _ h in
      ((eq_iff url.protocol "https:").0 https, check_host-IsSafeHost _ host)

  -- A target that the guard lets pass is an https URL, and its host is either an address that the
  -- rules allow or a name that has addresses, all of which they allow.
  pub is_safe_webhook_target-IsSafeTarget :
      (raw_url : String)
      → is_safe_webhook_target parse_url is_ip to_lower_case resolve raw_url ≡ safe
      → IsSafeTarget (parse_url raw_url)
  unfolding is_safe_webhook_target
  is_safe_webhook_target-IsSafeTarget raw_url h = check_url-IsSafeTarget (parse_url raw_url) h
