-- ===== src/Permissions/Grants.antt =====
-- What `has_permission` grants: every bit of the mask, each from the server's defaults or from a role
-- that the member holds.
use Prim.Native.Nat.{bit_or}
use stoatpp.Prelude.{
  ℕ, ◌≡◌, refl, sym, subst, ◌↔◌, ◌⊎◌, inl, inr, true, List, [], ◌∷◌, arith, ==_iff, Bool-cases,
  if◌then◌else◌, Has,
}
use stoatpp.Bits.{bit, bit-bit_or, bit-le-one, bit_and-eq_iff}
use stoatpp.Text.{Text, text_eq, text_eq_iff}
use stoatpp.Json.{JsonLib}
use stoatpp.Models.Role.{Role, allowed_permissions}
use stoatpp.Models.Member.{Member}
use stoatpp.Models.Server.{Server}
use stoatpp.Permissions.{grant_role, grant_roles, default_mask, has_permission}

module _ (J : JsonLib) (i : ℕ) where
  -- A role among `roles` that has one of these ids and bit `i`.
  abbrev pub RoleGrants : List (Role J) → List Text → Type 0
  RoleGrants roles ids =
      (r : Role J) × Has r roles × Has r.id ids × (bit i (allowed_permissions J r) ≡ 1)

  bit_or-one : (a b : ℕ) → (bit i (bit_or a b) ≡ 1) ↔ ((bit i a ≡ 1) ⊎ (bit i b ≡ 1))
  bit_or-one a b = (
    λ h. omega (arith, bit-bit_or i a b, bit-le-one i a, bit-le-one i b),
    λ h. omega (arith, bit-bit_or i a b, bit-le-one i a, bit-le-one i b),
  )

  abbrev OneRole : List (Role J) → Text → Type 0
  OneRole roles id =
      (r : Role J) × Has r roles × (r.id ≡ id) × (bit i (allowed_permissions J r) ≡ 1)

  later : (r : Role J) (rs : List (Role J)) (id : Text) → OneRole rs id → OneRole (r ∷ rs) id
  later r rs id (q, h, e, b) = (q, inr h, e, b)

  -- One round of the inner loop.
  round : Role J → Text → ℕ → ℕ
  round r id a = if text_eq r.id id then bit_or a (allowed_permissions J r) else a

  round-bit :
      (r : Role J) (id : Text) (a : ℕ)
      → bit i (round r id a) ≡ 1
      → (bit i a ≡ 1) ⊎ ((r.id ≡ id) × (bit i (allowed_permissions J r) ≡ 1))
  unfolding round
  round-bit r id a h = ground (arith, text_eq_iff r.id id, bit_or-one a (allowed_permissions J r))

  round_keeps : (r : Role J) (id : Text) (a : ℕ) → bit i a ≡ 1 → bit i (round r id a) ≡ 1
  unfolding round
  round_keeps r id a h = ground (arith, bit_or-one a (allowed_permissions J r))

  round_gives :
      (r : Role J) (id : Text) (a : ℕ)
      → r.id ≡ id
      → bit i (allowed_permissions J r) ≡ 1
      → bit i (round r id a) ≡ 1
  unfolding round
  round_gives r id a e h =
      ground (arith, text_eq_iff r.id id, bit_or-one a (allowed_permissions J r))

  bit-grant_role :
      (roles : List (Role J)) (id : Text) (a : ℕ)
      → bit i (grant_role J roles id a) ≡ 1
      → (bit i a ≡ 1) ⊎ OneRole roles id
  unfolding grant_role round
  bit-grant_role [] id a h = inl h
  bit-grant_role (r ∷ rs) id a h = elim (bit-grant_role rs id (round r id a) h) [
    | inl old ↦ elim (round-bit r id a old) [ inl o ↦ inl o | inr (e, b) ↦ inr (r, inl refl, e, b) ]
    | inr found ↦ inr (later r rs id found)
  ]

  grant_role-keeps :
      (roles : List (Role J)) (id : Text) (a : ℕ)
      → bit i a ≡ 1
      → bit i (grant_role J roles id a) ≡ 1
  unfolding grant_role round
  grant_role-keeps [] id a h = h
  grant_role-keeps (r ∷ rs) id a h = grant_role-keeps rs id (round r id a) (round_keeps r id a h)

  grant_role-gives :
      (roles : List (Role J)) (id : Text) (a : ℕ) (r : Role J)
      → Has r roles
      → r.id ≡ id
      → bit i (allowed_permissions J r) ≡ 1
      → bit i (grant_role J roles id a) ≡ 1
  unfolding grant_role round
  grant_role-gives [] id a r h e b = absurd h
  grant_role-gives (q ∷ rs) id a r (inl same) e b = grant_role-keeps rs id (round q id a) (
      round_gives q id a (rw same e)
        (subst (λ p. bit i (allowed_permissions J p) ≡ 1) (sym same) b))
  grant_role-gives (q ∷ rs) id a r (inr h) e b = grant_role-gives rs id (round q id a) r h e b

  bit-grant_roles :
      (roles : List (Role J)) (ids : List Text) (a : ℕ)
      → bit i (grant_roles J roles ids a) ≡ 1
      → (bit i a ≡ 1) ⊎ RoleGrants roles ids
  unfolding grant_roles
  bit-grant_roles roles [] a h = inl h
  bit-grant_roles roles (id ∷ ids) a h =
      elim (bit-grant_roles roles ids (grant_role J roles id a) h) [
        | inl old ↦ elim (bit-grant_role roles id a old) [
          | inl o ↦ inl o
          | inr (r, held, e, b) ↦ inr (r, held, inl (sym e), b)
        ]
        | inr (r, held, place, b) ↦ inr (r, held, inr place, b)
      ]

  grant_roles-keeps :
      (roles : List (Role J)) (ids : List Text) (a : ℕ)
      → bit i a ≡ 1
      → bit i (grant_roles J roles ids a) ≡ 1
  unfolding grant_roles
  grant_roles-keeps roles [] a h = h
  grant_roles-keeps roles (id ∷ ids) a h =
      grant_roles-keeps roles ids _ (grant_role-keeps roles id a h)

  grant_roles-gives :
      (roles : List (Role J)) (ids : List Text) (a : ℕ) (r : Role J)
      → Has r roles
      → Has r.id ids
      → bit i (allowed_permissions J r) ≡ 1
      → bit i (grant_roles J roles ids a) ≡ 1
  unfolding grant_roles
  grant_roles-gives roles [] a r h place b = absurd place
  grant_roles-gives roles (id ∷ ids) a r h (inl e) b =
      grant_roles-keeps roles ids _ (grant_role-gives roles id a r h (sym e) b)
  grant_roles-gives roles (id ∷ ids) a r h (inr place) b =
      grant_roles-gives roles ids (grant_role J roles id a) r h place b

  -- A bit of the union of the defaults and the member's roles comes from one of them.
  bit-grants :
      (roles : List (Role J)) (ids : List Text) (a : ℕ)
      → (bit i (grant_roles J roles ids a) ≡ 1) ↔ ((bit i a ≡ 1) ⊎ RoleGrants roles ids)
  bit-grants roles ids a = (
    bit-grant_roles roles ids a,
    elim [
      | inl old ↦ grant_roles-keeps roles ids a old
      | inr (r, held, place, b) ↦ grant_roles-gives roles ids a r held place b
    ],
  )

module _ (J : JsonLib) (s : Server J) (m : Member J) (mask : ℕ) where
  -- What the test should mean.
  abbrev pub IsPermitted : Type 0
  IsPermitted =
      (s.owner ≡ m.id)
      ⊎ ((i : ℕ) → bit i mask ≡ 1 → (bit i (default_mask J s) ≡ 1) ⊎ RoleGrants J i s.roles m.roles)

  granted→ : has_permission J s m mask ≡ true → IsPermitted
  unfolding has_permission
  granted→ h = elim (Bool-cases (text_eq s.owner m.id)) [
    | inl owns ↦ inl ((text_eq_iff s.owner m.id).0 owns)
    | inr other ↦ inr (λ i b.
        (bit-grants J i s.roles m.roles (default_mask J s)).0
          ((bit_and-eq_iff _ mask).0 ((==_iff _ mask).0 (rw other at h)) i b))
  ]

  →granted : IsPermitted → has_permission J s m mask ≡ true
  unfolding has_permission
  →granted (inl owns) = rw ((text_eq_iff s.owner m.id).1 owns)
  →granted (inr each) = elim (Bool-cases (text_eq s.owner m.id)) [
    | inl owns ↦ rw owns
    | inr other ↦ rw other (
        (==_iff _ mask).1 (
          (bit_and-eq_iff _ mask).1
            (λ i b. (bit-grants J i s.roles m.roles (default_mask J s)).1 (each i b))))
  ]

  -- `has_permission` answers yes exactly when the member owns the server, or each bit of the mask is
  -- granted by the server's default permissions or by some role of the server that the member holds.
  pub has_permission_iff : (has_permission J s m mask ≡ true) ↔ IsPermitted
  has_permission_iff = (granted→, →granted)
