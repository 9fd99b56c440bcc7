-- ===== src/Cache/Reads.antt =====
-- The accessors of src/cluster/cache.cpp.
use stoatpp.Prelude.{ℕ, ◌+◌, Option, none, some, List, [], ◌∷◌, map, length}
use stoatpp.Text.{Text}
use stoatpp.Dict.{Dict, lookup}
use stoatpp.Json.{JsonLib}
use stoatpp.Models.Member.{Member}
use stoatpp.Models.Server.{Server}
use stoatpp.Models.User.{User}
use stoatpp.Models.Channel.{Channel}
use stoatpp.Cache.State.{Cache}

module _ (J : JsonLib) where
  unfoldable pub get_server : Cache J → Text → Option (Server J)
  get_server c id = lookup id c.server_cache

  unfoldable pub get_servers : Cache J → List (Server J)
  get_servers c = map (λ entry. entry.1) c.server_cache

  unfoldable pub get_channel : Cache J → Text → Option (Channel J)
  get_channel c id = lookup id c.channel_cache

  unfoldable pub get_channels : Cache J → List (Channel J)
  get_channels c = map (λ entry. entry.1) c.channel_cache

  unfoldable pub get_user : Cache J → Text → Option (User J)
  get_user c id = lookup id c.user_cache

  unfoldable pub get_member : Cache J → Text → Text → Option (Member J)
  get_member c server_id user_id = elim (lookup server_id c.member_cache) [
    | none ↦ none
    | some members ↦ lookup user_id members
  ]

  unfoldable pub get_member_count_sync : Cache J → Text → ℕ
  get_member_count_sync c server_id = elim (lookup server_id c.member_cache) [
    | none ↦ 0
    | some members ↦ length members
  ]

  abbrev pub total_members : Dict (Dict (Member J)) → ℕ
  total_members [] = 0
  total_members ((server_id, members) ∷ m) = length members + total_members m

  unfoldable pub get_total_member_count : Cache J → ℕ
  get_total_member_count c = total_members c.member_cache
