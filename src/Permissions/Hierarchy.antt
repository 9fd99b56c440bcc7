-- ===== src/Permissions/Hierarchy.antt =====
-- `Server::get_highest_rank` and `Server::check_hierarchy` of include/stoatpp/models/server.h.
use stoatpp.Prelude.{
  ◌≡◌, refl, sym, subst, ◌↔◌, ◌≢◌, ◌⊎◌, inl, inr, true, false, List, [], ◌∷◌, arith, ◌&&◌,
  if◌then◌else◌, Has,
}
use stoatpp.Prelude.Int.{ℤ, pos, negsuc, ltb_ℤ, ◌≤ℤ◌}
use stoatpp.Text.{Text, text_eq, text_eq_iff, text_eq-ne}
use stoatpp.Json.{JsonLib}
use stoatpp.Models.Role.{Role}
use stoatpp.Models.Member.{Member}
use stoatpp.Models.Server.{
  Server, rank_among, rank_over, lowest_authority, get_highest_rank, check_hierarchy,
}

module _ (J : JsonLib) where
  -- A role among `roles` with one of these ids.
  abbrev pub HeldRole : List (Role J) → List Text → Type 0
  HeldRole roles ids = (r : Role J) × Has r roles × Has r.id ids

  -- One round of the inner loop.
  round : Role J → Text → ℤ → ℤ
  round r id h = if text_eq r.id id && ltb_ℤ r.rank h then r.rank else h

  round-le : (r : Role J) (id : Text) (h : ℤ) → round r id h ≤ℤ h
  unfolding round
  round-le r id h = ground arith

  round-le_rank : (r : Role J) (id : Text) (h : ℤ) → r.id ≡ id → round r id h ≤ℤ r.rank
  unfolding round
  round-le_rank r id h e = ground (arith, text_eq_iff r.id id)

  round_cases :
      (r : Role J) (id : Text) (h : ℤ)
      → (round r id h ≡ h) ⊎ ((r.id ≡ id) × (round r id h ≡ r.rank))
  unfolding round
  round_cases r id h = ground (arith, text_eq_iff r.id id)

  rank_among-le : (roles : List (Role J)) (id : Text) (h : ℤ) → rank_among J roles id h ≤ℤ h
  unfolding rank_among round
  rank_among-le [] id h = omega arith
  rank_among-le (r ∷ rs) id h = omega (arith, rank_among-le rs id (round r id h), round-le r id h)

  rank_among-le_rank :
      (roles : List (Role J)) (id : Text) (h : ℤ) (r : Role J)
      → Has r roles
      → r.id ≡ id
      → rank_among J roles id h ≤ℤ r.rank
  unfolding rank_among round
  rank_among-le_rank [] id h r held e = absurd held
  rank_among-le_rank (q ∷ rs) id h r (inl same) e =
      subst (λ p. rank_among J rs id (round q id h) ≤ℤ p.rank) same
        (omega (arith, rank_among-le rs id (round q id h), round-le_rank q id h (rw same e)))
  rank_among-le_rank (q ∷ rs) id h r (inr held) e = rank_among-le_rank rs id (round q id h) r held e

  rank_over-le : (roles : List (Role J)) (ids : List Text) (h : ℤ) → rank_over J roles ids h ≤ℤ h
  unfolding rank_over
  rank_over-le roles [] h = omega arith
  rank_over-le roles (id ∷ ids) h =
      omega (arith, rank_over-le roles ids (rank_among J roles id h), rank_among-le roles id h)

  rank_over-le_rank :
      (roles : List (Role J)) (ids : List Text) (h : ℤ) (r : Role J)
      → Has r roles
      → Has r.id ids
      → rank_over J roles ids h ≤ℤ r.rank
  unfolding rank_over
  rank_over-le_rank roles [] h r held place = absurd place
  rank_over-le_rank roles (id ∷ ids) h r held (inl e) = omega (
    arith,
    rank_over-le roles ids (rank_among J roles id h),
    rank_among-le_rank roles id h r held (sym e),
  )
  rank_over-le_rank roles (id ∷ ids) h r held (inr place) =
      rank_over-le_rank roles ids (rank_among J roles id h) r held place

  -- The result is the start value or the rank of a role that fits.
  Attained : List (Role J) → List Text → ℤ → ℤ → Type 0
  Attained roles ids h result =
      (result ≡ h) ⊎ ((r : Role J) × Has r roles × Has r.id ids × (result ≡ r.rank))

  rank_among-Attained :
      (roles : List (Role J)) (id : Text) (h : ℤ)
      → Attained roles (id ∷ []) h (rank_among J roles id h)
  unfolding rank_among round Attained
  rank_among-Attained [] id h = inl refl
  rank_among-Attained (q ∷ rs) id h = elim (rank_among-Attained rs id (round q id h)) [
    | inl same ↦ elim (round_cases q id h) [
      | inl e ↦ inl (rw same e)
      | inr (e, k) ↦ inr (q, inl refl, inl (sym e), rw same k)
    ]
    | inr (r, held, place, e) ↦ inr (r, inr held, place, e)
  ]

  rank_over-Attained :
      (roles : List (Role J)) (ids : List Text) (h : ℤ)
      → Attained roles ids h (rank_over J roles ids h)
  unfolding rank_over Attained
  rank_over-Attained roles [] h = inl refl
  rank_over-Attained roles (id ∷ ids) h =
      elim (rank_over-Attained roles ids (rank_among J roles id h)) [
        | inl same ↦ elim (rank_among-Attained roles id h) [
          | inl e ↦ inl (rw same e)
          | inr (r, held, inl place, e) ↦ inr (r, held, inl place, rw same e)
          | inr (r, held, inr none, e) ↦ absurd none
        ]
        | inr (r, held, place, e) ↦ inr (r, held, inr place, e)
      ]

  -- For a member who does not own the server, the highest rank is the least of 999999 and the ranks of
  -- the roles held: it is at most each of them, and it is one of them.
  pub get_highest_rank_least :
      (s : Server J) (m : Member J)
      → text_eq s.owner m.id ≡ false
      → (get_highest_rank J s m ≤ℤ lowest_authority)
        × ((held : HeldRole s.roles m.roles) → get_highest_rank J s m ≤ℤ held.0.rank)
        × ((get_highest_rank J s m ≡ lowest_authority)
            ⊎ ((r : Role J) × Has r s.roles × Has r.id m.roles × (get_highest_rank J s m ≡ r.rank)))
  unfolding get_highest_rank Attained
  get_highest_rank_least s m other = rw other (
    rank_over-le s.roles m.roles lowest_authority,
    λ held. rank_over-le_rank s.roles m.roles lowest_authority held.0 held.1 held.2,
    rank_over-Attained s.roles m.roles lowest_authority,
  )

  -- `check_hierarchy` is a strict order on the members of a server: who outranks someone outranks everyone
  -- that one outranks, and is outranked by none of them.
  pub check_hierarchy_strict :
      (s : Server J) (a b c : Member J)
      → check_hierarchy J s a b ≡ true
      → check_hierarchy J s b c ≡ true
      → (check_hierarchy J s a c ≡ true) × (check_hierarchy J s c a ≡ false)
  unfolding check_hierarchy
  check_hierarchy_strict s a b c h k =
      chain (get_highest_rank J s a) (get_highest_rank J s b) (get_highest_rank J s c) h k
    where
      chain :
          (x y z : ℤ)
          → ltb_ℤ x y ≡ true
          → ltb_ℤ y z ≡ true
          → (ltb_ℤ x z ≡ true) × (ltb_ℤ z x ≡ false)
      chain x y z p q = (ground arith, ground arith)

  -- The owner outranks another member exactly when every role that the member holds has a rank of 0 or
  -- more.
  pub check_hierarchy_owner :
      (s : Server J) (a b : Member J)
      → s.owner ≡ a.id
      → s.owner ≢ b.id
      → (check_hierarchy J s a b ≡ true)
        ↔ ((held : HeldRole s.roles b.roles) → pos 0 ≤ℤ held.0.rank)
  unfolding check_hierarchy
  check_hierarchy_owner s a b owns other = (
    λ h held. above (get_highest_rank J s b) held.0.rank (rw top at h) (least.1 held),
    λ each. rw top (below (get_highest_rank J s b) (up each)),
  )
    where
      top : get_highest_rank J s a ≡ negsuc 0
      top = unfold get_highest_rank in rw ((text_eq_iff s.owner a.id).1 owns)

      least :
          (get_highest_rank J s b ≤ℤ lowest_authority)
          × ((held : HeldRole s.roles b.roles) → get_highest_rank J s b ≤ℤ held.0.rank)
          × ((get_highest_rank J s b ≡ lowest_authority)
              ⊎ ((r : Role J) × Has r s.roles
                  × Has r.id b.roles
                  × (get_highest_rank J s b ≡ r.rank)))
      least = get_highest_rank_least s b (text_eq-ne s.owner b.id other)

      above : (x r : ℤ) → ltb_ℤ (negsuc 0) x ≡ true → x ≤ℤ r → pos 0 ≤ℤ r
      above x r p q = ground arith

      below : (x : ℤ) → pos 0 ≤ℤ x → ltb_ℤ (negsuc 0) x ≡ true
      below x p = ground arith

      up :
          ((held : HeldRole s.roles b.roles) → pos 0 ≤ℤ held.0.rank)
          → pos 0 ≤ℤ get_highest_rank J s b
      up each = elim least.2 [
        | inl e ↦ rw e (omega arith)
        | inr (r, held, place, e) ↦ rw e (each (r, held, place))
      ]
