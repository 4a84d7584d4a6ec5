-- ===== src/Tenant.antt =====
-- packages/db/src/tenant.ts: what runs for one organization, after the test of its id.
use Prim.Native.String.{String, ◌++◌, [] as empty, ◌∷◌ as ◌then◌}
use Prim.Native.Char.{Char, code}
use Prim.Native.Nat.{ℕ, zero, suc}
use mathlib.Core.Bool.{Bool, true, false, ◌&&◌, ◌||◌}
use mathlib.Core.List.{List, [], ◌∷◌}
use cloud_mesh.Common.{leb, ◌==◌, if◌then◌else◌}
use cloud_mesh.CircuitBreaker.{Outcome, threw}

abbrev pub is_between : ℕ → ℕ → ℕ → Bool
is_between low high n = leb low n && leb n high

abbrev pub is_hex : Char → Bool
is_hex c = is_between 48 57 (code c) || (is_between 97 102 (code c) || is_between 65 70 (code c))

-- As many digits as the number says, and then groups of digits, each after a dash.
abbrev pub is_dashed : ℕ → List ℕ → String → Bool
is_dashed zero [] empty = true
is_dashed zero (n ∷ ns) empty = false
is_dashed (suc left) ns empty = false
is_dashed zero [] (c then s) = false
is_dashed zero (n ∷ ns) (c then s) = (code c == 45) && is_dashed n ns s
is_dashed (suc left) ns (c then s) = is_hex c && is_dashed left ns s

-- `UUID_RE.test`.
unfoldable pub is_uuid : String → Bool
is_uuid s = is_dashed 8 (4 ∷ 4 ∷ 4 ∷ 12 ∷ []) s

-- `withTenant`: `run` is the transaction.
unfoldable pub with_tenant {ℓ} :
    {S : Type ℓ} {A : Type 0} → String → (S → S × Outcome String A) → S → S × Outcome String A
unfolding is_uuid
with_tenant org_id run s =
    if is_uuid org_id
    then run s
    else (s, threw ("withTenant: orgId is not a valid UUID: " ++ org_id))

-- `s.length`: a character above the first 65,536 is two units.
abbrev pub units : String → ℕ
units empty = 0
units (c then s) = elim (leb 65_536 (code c)) [ true ↦ suc (suc (units s)) | false ↦ suc (units s) ]
