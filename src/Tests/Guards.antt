-- ===== src/Tests/Guards.antt =====
-- Uses of the theorems on permissions and ranks.
use stoatpp.Prelude.{◌≡◌, refl, ◌≢◌, ◌↔◌, ◌⊎◌, true, false, Has}
use stoatpp.Prelude.Int.{◌≤ℤ◌, pos}
use stoatpp.Text.{lit, text_eq, text_eq_iff}
use stoatpp.Models.Role.{Role}
use stoatpp.Models.Member.{Member, no_member}
use stoatpp.Models.Server.{get_highest_rank, check_hierarchy, lowest_authority}
use stoatpp.Permissions.{has_permission}
use stoatpp.Permissions.Grants.{IsPermitted, has_permission_iff}
use stoatpp.Permissions.Hierarchy.{HeldRole, get_highest_rank_least, check_hierarchy_owner}
use stoatpp.Tests.Sample.{sample_json, home, alice, bob}

granted : has_permission sample_json home alice 5 ≡ true
unfolding has_permission text_eq stoatpp.Permissions.default_mask
    stoatpp.Models.Role.allowed_permissions
granted = refl

refused : has_permission sample_json home bob 5 ≡ false
unfolding has_permission text_eq stoatpp.Permissions.default_mask
refused = refl

outranks : check_hierarchy sample_json home alice bob ≡ true
unfolding check_hierarchy text_eq
outranks = refl

has_permission_iff_example :
    (has_permission sample_json home alice 5 ≡ true) ↔ IsPermitted sample_json home alice 5
has_permission_iff_example = has_permission_iff sample_json home alice 5

not_owner : text_eq home.owner alice.id ≡ false
unfolding text_eq
not_owner = refl

get_highest_rank_least_example :
    (get_highest_rank sample_json home alice ≤ℤ lowest_authority)
    × ((held : HeldRole sample_json home.roles alice.roles)
        → get_highest_rank sample_json home alice ≤ℤ held.0.rank)
    × ((get_highest_rank sample_json home alice ≡ lowest_authority)
        ⊎ ((r : Role sample_json) × Has r home.roles
            × Has r.id alice.roles
            × (get_highest_rank sample_json home alice ≡ r.rank)))
get_highest_rank_least_example = get_highest_rank_least sample_json home alice not_owner

abbrev owner : Member sample_json
owner = record (no_member sample_json) { id = lit "owner" }

owner_outranks : check_hierarchy sample_json home owner alice ≡ true
unfolding check_hierarchy text_eq
owner_outranks = refl

owner_not_bob : text_eq home.owner bob.id ≡ false
unfolding text_eq
owner_not_bob = refl

owner_is_not_bob : home.owner ≢ bob.id
owner_is_not_bob e = cc (owner_not_bob, (text_eq_iff home.owner bob.id).1 e)

check_hierarchy_owner_example :
    (check_hierarchy sample_json home owner bob ≡ true)
    ↔ ((held : HeldRole sample_json home.roles bob.roles) → pos 0 ≤ℤ held.0.rank)
check_hierarchy_owner_example =
    check_hierarchy_owner sample_json home owner bob refl owner_is_not_bob
