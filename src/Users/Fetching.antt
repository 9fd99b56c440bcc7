-- ===== src/Users/Fetching.antt =====
-- What `fetch_user` of src/cluster/misc.cpp leaves in the cache.
use stoatpp.Prelude.{
  ◌≡◌, refl, sym, subst, Bool, true, Option, none, some, Bool-cases, Option-cases, inl, inr,
}
use stoatpp.Text.{Text, text_eq_refl}
use stoatpp.Dict.{lookup-insert}
use stoatpp.Json.{JsonLib}
use stoatpp.Models.User.{User}
use stoatpp.Cache.State.{Cache}
use stoatpp.Cache.Reads.{get_user}
use stoatpp.Cache.Invariant.{IsKeyed}
use stoatpp.Rest.Exchange.{Response}
use stoatpp.Users.{fetch_user, complete, known_user, has_bio, with_profile, body_of}

module _ (J : JsonLib) where
  Found : Cache J × (User J × Bool) → Type 0
  Found result = get_user J result.0 result.1.0.id ≡ some result.1.0

  complete-Found :
      (c : Cache J) (known : Option (User J)) (profile : Option (Response J))
      → (complete J c known profile).1.1 ≡ true
      → Found (complete J c known profile)
  unfolding Found get_user
  complete-Found c none profile told = cc
  complete-Found c (some u) none told = cc
  complete-Found c (some u) (some r) told =
      let full = with_profile J u (body_of J (some r)) in
      rw (get_user, lookup-insert full.id full.id full c.user_cache, text_eq_refl full.id) refl

  -- In a cache where each user stands under its own id: a user that `fetch_user` reports with success is
  -- found in the cache afterwards, as it was reported.
  pub fetch_user-get_user :
      (c : Cache J) (user_id : Text) (answer profile : Text → Option (Response J))
      → IsKeyed J c
      → (fetch_user J c user_id answer profile).1.1 ≡ true
      → get_user J
          (fetch_user J c user_id answer profile).0
          (fetch_user J c user_id answer profile).1.0.id
        ≡ some (fetch_user J c user_id answer profile).1.0
  unfolding fetch_user Found
  fetch_user-get_user c user_id answer profile keyed told =
      elim (Option-cases (get_user J c user_id)) [
        | inl miss ↦
            rw (fetch_user, miss)
              (complete-Found c (known_user J none (answer user_id)) (profile user_id)
                (rw (fetch_user, miss) at told))
        | inr (u, found) ↦ elim (Bool-cases (has_bio J u)) [
          | inl complete_already ↦
              rw (fetch_user, found, complete_already)
                (subst (λ i. get_user J c i ≡ some u)
                  (sym (keyed.users.at_key user_id u (unfold get_user in found))) found)
          | inr partial ↦
              rw (fetch_user, found, partial)
                (complete-Found c (some u) (profile user_id)
                  (rw (fetch_user, found, partial) at told))
        ]
      ]
