-- ===== src/Models/Server.antt =====
-- include/stoatpp/models/server.h
use stoatpp.Prelude.{Bool, Option, List, [], ◌∷◌, map, if◌then◌else◌, ◌&&◌}
use stoatpp.Prelude.Int.{ℤ, pos, negsuc, ltb_ℤ}
use stoatpp.Text.{Text, lit, text_eq}
use stoatpp.Json.{
  JsonLib, string_field, number_field, string_list, file_field, id_field, value_or, with_text,
  texts,
}
use stoatpp.Models.Role.{Role, role_from_json, role_to_json}
use stoatpp.Models.Member.{Member}

pub record Server (J : JsonLib) : Type 0 where
  pub id : Text
  pub owner : Text
  pub name : Text
  pub description : Option Text
  pub channels : List Text
  pub roles : List (Role J)
  pub icon : Option Text
  pub banner : Option Text
  pub flags : ℤ
  pub raw : J.Json

-- `int highest = 999999`
abbrev pub lowest_authority : ℤ
lowest_authority = pos 999999

module _ (J : JsonLib) where
  -- The roles of a server object: an array of roles, or an object from role ids to roles.
  abbrev pub roles_of_json : J.Json → List (Role J)
  roles_of_json v =
      if J.is_array v
      then map (role_from_json J) (J.elements v)
      else if J.is_object v
      then map (λ entry. role_from_json J (J.with_field entry.1 (lit "id") (J.of_text entry.0)))
          (J.items v)
      else []

  -- `Server::from_json`
  unfoldable pub server_from_json : J.Json → Server J
  server_from_json j = record {
    id = value_or (id_field J j) [];
    owner = value_or (string_field J j (lit "owner")) [];
    name = value_or (string_field J j (lit "name")) [];
    description = string_field J j (lit "description");
    channels = string_list J j (lit "channels");
    roles = if J.contains j (lit "roles") then roles_of_json (J.field j (lit "roles")) else [];
    icon = file_field J j (lit "icon") (lit "_id") (lit "id");
    banner = file_field J j (lit "banner") (lit "_id") (lit "id");
    flags = value_or (number_field J j (lit "flags")) (pos 0);
    raw = j;
  }

  -- the inner loop of `get_highest_rank`: over the server's roles, at one role id of the member
  unfoldable pub rank_among : List (Role J) → Text → ℤ → ℤ
  rank_among [] role_id highest = highest
  rank_among (r ∷ rs) role_id highest =
      rank_among rs role_id
        (if text_eq r.id role_id && ltb_ℤ r.rank highest then r.rank else highest)

  -- the outer loop, over the member's role ids
  unfoldable pub rank_over : List (Role J) → List Text → ℤ → ℤ
  unfolding rank_among
  rank_over roles [] highest = highest
  rank_over roles (role_id ∷ ids) highest = rank_over roles ids (rank_among roles role_id highest)

  -- `Server::get_highest_rank`: a lower number is a higher rank.
  unfoldable pub get_highest_rank : Server J → Member J → ℤ
  unfolding rank_over
  get_highest_rank s m =
      if text_eq s.owner m.id then negsuc 0 else rank_over s.roles m.roles lowest_authority

  -- `Server::check_hierarchy`: `a` outranks `b`.
  unfoldable pub check_hierarchy : Server J → Member J → Member J → Bool
  unfolding get_highest_rank
  check_hierarchy s a b = ltb_ℤ (get_highest_rank s a) (get_highest_rank s b)

  abbrev pub roles_to_json : J.Json → List (Role J) → J.Json
  roles_to_json j [] = j
  roles_to_json j (r ∷ rs) = roles_to_json (J.with_field j r.id (role_to_json J r)) rs

  -- `Server::to_json`
  unfoldable pub server_to_json : Server J → J.Json
  server_to_json s =
      let j = J.with_field s.raw (lit "id") (J.of_text s.id) in
      let j = J.with_field j (lit "owner") (J.of_text s.owner) in
      let j = J.with_field j (lit "name") (J.of_text s.name) in
      let j = with_text J j (lit "description") s.description in
      let j = J.with_field j (lit "channels") (texts J s.channels) in
      let j = J.with_field j (lit "roles") (roles_to_json J.object s.roles) in
      let j = with_text J j (lit "icon") s.icon in
      let j = with_text J j (lit "banner") s.banner in
      J.with_field j (lit "flags") (J.of_int s.flags)
