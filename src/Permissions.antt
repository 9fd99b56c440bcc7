-- ===== src/Permissions.antt =====
-- include/stoatpp/models/permissions.h and the permission test of src/cluster/misc.cpp. Masks are the bit
-- patterns of `int64_t`.
pub mod Grants
pub mod Hierarchy
use Prim.Native.Nat.{bit_and, bit_or}
use stoatpp.Prelude.{
  ℕ, ◌^◌, Bool, true, Option, none, some, List, [], ◌∷◌, if◌then◌else◌, ◌==◌, not, ◌&&◌,
}
use stoatpp.Text.{Text, lit, text_eq}
use stoatpp.Json.{JsonLib, object_field}
use stoatpp.Models.Role.{Role, allowed_permissions, mask_field, pattern64}
use stoatpp.Models.Member.{Member}
use stoatpp.Models.Server.{Server}

module _ (J : JsonLib) where
  -- The mask of `raw["default_permissions"]`: a number, or an object with a number under `server`.
  unfoldable pub default_mask : Server J → ℕ
  unfolding pattern64
  default_mask s =
      if J.contains s.raw (lit "default_permissions")
      then (let dp = J.field s.raw (lit "default_permissions") in
          if J.is_number dp
          then pattern64 (J.get_int64 dp)
          else if J.is_object dp
          then elim (mask_field J dp (lit "server")) [ some m ↦ m | none ↦ 0 ]
          else 0)
      else 0

  -- the inner loop: the server's roles that have this id
  unfoldable pub grant_role : List (Role J) → Text → ℕ → ℕ
  grant_role [] role_id allowed = allowed
  grant_role (r ∷ rs) role_id allowed =
      grant_role rs role_id
        (if text_eq r.id role_id then bit_or allowed (allowed_permissions J r) else allowed)

  -- the outer loop: the member's role ids
  unfoldable pub grant_roles : List (Role J) → List Text → ℕ → ℕ
  unfolding grant_role
  grant_roles roles [] allowed = allowed
  grant_roles roles (role_id ∷ ids) allowed =
      grant_roles roles ids (grant_role roles role_id allowed)

  -- `cluster::has_permission`
  unfoldable pub has_permission : Server J → Member J → ℕ → Bool
  unfolding grant_roles
  has_permission s m mask =
      if text_eq s.owner m.id
      then true
      else bit_and (grant_roles s.roles m.roles (default_mask s)) mask == mask
