-- ===== src/Cache/State.antt =====
-- The caches of include/stoatpp/cluster.h and the writes of src/cluster/cache.cpp. A server is removed by a
-- thread that first sleeps for 500 ms; `pending` holds the ids of the removals that sleep.
use stoatpp.Prelude.{List, [], ◌∷◌, if◌then◌else◌, ◌&&◌, not, is_nil}
use stoatpp.Text.{Text}
use stoatpp.Dict.{Dict, lookup, insert, erase}
use stoatpp.Json.{JsonLib, value_or}
use stoatpp.Models.Member.{Member}
use stoatpp.Models.Server.{Server}
use stoatpp.Models.User.{User}
use stoatpp.Models.Channel.{Channel}

pub record Cache (J : JsonLib) : Type 0 where
  pub server_cache : Dict (Server J)
  pub channel_cache : Dict (Channel J)
  pub user_cache : Dict (User J)
  -- server id, then user id
  pub member_cache : Dict (Dict (Member J))
  pub current_user : User J
  pub pending : List Text

module _ (J : JsonLib) where
  -- `cache_user`
  unfoldable pub cache_user : Cache J → User J → Cache J
  cache_user c u =
      if not (is_nil u.id) then record c { user_cache = insert u.id u c.user_cache } else c

  -- `cache_server`
  unfoldable pub cache_server : Cache J → Server J → Cache J
  cache_server c s = record c { server_cache = insert s.id s c.server_cache }

  -- `channel_cache_[c.id] = c`
  abbrev pub cache_channel : Cache J → Channel J → Cache J
  cache_channel c ch = record c { channel_cache = insert ch.id ch c.channel_cache }

  -- The members of a server; `operator[]` makes an empty map where there is none.
  abbrev pub members_of : Cache J → Text → Dict (Member J)
  members_of c server_id = value_or (lookup server_id c.member_cache) []

  -- `cache_member`
  unfoldable pub cache_member : Cache J → Member J → Cache J
  cache_member c m =
      if not (is_nil m.server_id) && not (is_nil m.id)
      then record c {
        member_cache = insert m.server_id (insert m.id m (members_of c m.server_id)) c.member_cache;
      }
      else c

  unfoldable pub forget_member : Cache J → Text → Text → Cache J
  forget_member c server_id user_id =
      if not (is_nil server_id) && not (is_nil user_id)
      then record c {
        member_cache = insert server_id (erase user_id (members_of c server_id)) c.member_cache;
      }
      else c

  abbrev pub each {ℓ} : {A : Type ℓ} → (Cache J → A → Cache J) → Cache J → List A → Cache J
  each f c [] = c
  each f c (a ∷ xs) = each f (f c a) xs
