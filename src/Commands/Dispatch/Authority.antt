-- ===== src/Commands/Dispatch/Authority.antt =====
-- Which commands `dispatch_command` of src/cluster/commands.cpp runs.
use stoatpp.Prelude.{
  inl, inr, Bool-cases, Option-cases, ◌⊎◌, ◌↔◌, ℕ, suc, ◌+◌, ◌≡◌, refl, none, some, List, [], ◌∷◌,
  arith, ltb,
}
use stoatpp.Prelude.Int.{pos_part}
use stoatpp.Json.{JsonLib}
use stoatpp.Models.Role.{pattern64}
use stoatpp.Models.Member.{Member}
use stoatpp.Models.Server.{Server}
use stoatpp.Cache.Reads.{get_server}
use stoatpp.Permissions.{has_permission}
use stoatpp.Permissions.Grants.{IsPermitted, has_permission_iff}
use stoatpp.Commands.State.{
  Failure, server_resolve_failed, permission_denied, server_only, CommandRunResult, deny, allow,
  allow_bypass_permissions, Hooks, Bot, Pending, Effect, run_callback,
}
use stoatpp.Commands.Dispatch.{verdict, report, execute, permit, on_member_fetched, dispatch_direct}

module _ (J : JsonLib) where
  -- The callbacks among the effects.
  abbrev pub runs : List (Effect J) → ℕ
  runs [] = 0
  runs (run_callback p ∷ es) = suc (runs es)
  runs (_ ∷ es) = runs es

  -- Every callback among the effects is counted.
  abbrev pub Counted : Bot J → Bot J × List (Effect J) → Type 0
  Counted b result = result.0.commands_executed ≡ b.commands_executed + runs result.1

  -- What lets a member run a command in a server.
  abbrev pub Authorized : Hooks J → Bot J → Pending J → Member J → Type 0
  Authorized hooks b p m =
      (verdict J hooks p (some m) ≡ allow_bypass_permissions)
      ⊎ ((verdict J hooks p (some m) ≡ allow)
          × ((pos_part p.command.required_permissions ≡ 0)
              ⊎ ((server : Server J) × (get_server J b.cache p.msg.server_id ≡ some server)
                  × IsPermitted J server m (pattern64 p.command.required_permissions))))

  pub runs-report : (hooks : Hooks J) (p : Pending J) (f : Failure) → runs (report J hooks p f) ≡ 0
  runs-report hooks p f = elim (Bool-cases hooks.command_error_handler) [
    | inl e ↦ rw e refl
    | inr e ↦ rw e refl
  ]

  pub verdict_cases :
      (v : CommandRunResult) → (v ≡ deny) ⊎ ((v ≡ allow) ⊎ (v ≡ allow_bypass_permissions))
  verdict_cases deny = inl refl
  verdict_cases allow = inr (inl refl)
  verdict_cases allow_bypass_permissions = inr (inr refl)

  module _ (hooks : Hooks J) (b : Bot J) (p : Pending J) (m : Member J) where
    abbrev Passes : Type 0
    Passes =
        (pos_part p.command.required_permissions ≡ 0)
        ⊎ ((server : Server J) × (get_server J b.cache p.msg.server_id ≡ some server)
            × IsPermitted J server m (pattern64 p.command.required_permissions))

    reported : (f : Failure) → runs (report J hooks p f) ≡ 1 → ⊥
    reported f h = omega (arith, runs-report hooks p f, h)

    permit→ : runs (permit J hooks b p m).1 ≡ 1 → Passes
    permit→ h = elim (Bool-cases (ltb 0 (pos_part p.command.required_permissions))) [
      | inr free ↦ inl (ground arith)
      | inl needs ↦ elim (Option-cases (get_server J b.cache p.msg.server_id)) [
        | inl unknown ↦ absurd (reported server_resolve_failed (rw (needs, unknown) at h))
        | inr (server, e) ↦
            let mask = pattern64 p.command.required_permissions in
            elim (Bool-cases (has_permission J server m mask)) [
              | inl granted ↦ inr (server, e, (has_permission_iff J server m mask).0 granted)
              | inr refused ↦ absurd (reported permission_denied (rw (needs, e, refused) at h))
            ]
      ]
    ]

    →permit : Passes → permit J hooks b p m ≡ execute J b p
    →permit (inl free) = rw free refl
    →permit (inr (server, e, granted)) =
        let mask = pattern64 p.command.required_permissions in
        elim (Bool-cases (ltb 0 (pos_part p.command.required_permissions))) [
          | inr free ↦ rw free refl
          | inl needs ↦ rw (needs, e, (has_permission_iff J server m mask).1 granted) refl
        ]

    pub permit-Counted : Counted b (permit J hooks b p m)
    permit-Counted = elim (Bool-cases (ltb 0 (pos_part p.command.required_permissions))) [
      | inr free ↦ rw free (omega arith)
      | inl needs ↦ elim (Option-cases (get_server J b.cache p.msg.server_id)) [
        | inl unknown ↦
            rw (needs, unknown) (omega (arith, runs-report hooks p server_resolve_failed))
        | inr (server, e) ↦
            elim (Bool-cases
              (has_permission J server m (pattern64 p.command.required_permissions))) [
                | inl granted ↦ rw (needs, e, granted) (omega arith)
                | inr refused ↦
                    rw (needs, e, refused) (omega (arith, runs-report hooks p permission_denied))
              ]
      ]
    ]

    fetched→ : runs (on_member_fetched J hooks b p (some m)).1 ≡ 1 → Authorized hooks b p m
    unfolding on_member_fetched
    fetched→ h = elim (verdict_cases (verdict J hooks p (some m))) [
      | inl e ↦ absurd (omega (arith, (rw (on_member_fetched, e) at h)))
      | inr (inl e) ↦ inr (e, permit→ (rw (on_member_fetched, e) at h))
      | inr (inr e) ↦ inl e
    ]

    →fetched : Authorized hooks b p m → on_member_fetched J hooks b p (some m) ≡ execute J b p
    unfolding on_member_fetched
    →fetched (inl e) = rw (on_member_fetched, e) refl
    →fetched (inr (e, passes)) = rw (on_member_fetched, e) (→permit passes)

    -- Once the author's member data is fetched, the command runs exactly when the run handler allows it with
    -- bypass, or allows it and either no permissions are required or the server is cached and grants the
    -- member all of them.
    pub on_member_fetched_iff :
        (runs (on_member_fetched J hooks b p (some m)).1 ≡ 1) ↔ Authorized hooks b p m
    on_member_fetched_iff = (fetched→, λ h. rw (→fetched h) refl)

  module _ (hooks : Hooks J) (p : Pending J) where
    -- Outside a server there are no permissions to hold.
    abbrev pub DirectlyAuthorized : Type 0
    DirectlyAuthorized =
        (verdict J hooks p none ≡ allow_bypass_permissions)
        ⊎ ((verdict J hooks p none ≡ allow) × (pos_part p.command.required_permissions ≡ 0))

  module _ (hooks : Hooks J) (b : Bot J) (p : Pending J) where
    direct→ : runs (dispatch_direct J hooks b p).1 ≡ 1 → DirectlyAuthorized hooks p
    unfolding dispatch_direct
    direct→ h = elim (verdict_cases (verdict J hooks p none)) [
      | inl e ↦ absurd (omega (arith, (rw (dispatch_direct, e) at h)))
      | inr (inr e) ↦ inl e
      | inr (inl e) ↦ elim (Bool-cases (ltb 0 (pos_part p.command.required_permissions))) [
        | inl needs ↦
            absurd (
              omega (arith, runs-report hooks p server_only, (rw (dispatch_direct, e, needs) at h)))
        | inr free ↦ inr (e, ground arith)
      ]
    ]

    pub dispatch_direct-runs :
        DirectlyAuthorized hooks p → dispatch_direct J hooks b p ≡ execute J b p
    unfolding dispatch_direct
    dispatch_direct-runs (inl e) = rw (dispatch_direct, e) refl
    dispatch_direct-runs (inr (e, free)) = rw (dispatch_direct, e, free) refl

    pub dispatch_direct_iff :
        (runs (dispatch_direct J hooks b p).1 ≡ 1) ↔ DirectlyAuthorized hooks p
    dispatch_direct_iff = (direct→, λ h. rw (dispatch_direct-runs h) refl)
