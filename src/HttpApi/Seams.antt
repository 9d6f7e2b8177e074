-- ===== src/HttpApi/Seams.antt =====
-- The systems behind the handlers' interfaces: authentik (`IdentityProvisioner`, `PasswordSetter`)
-- and the mail server (`provision.Mail`). A call that succeeds is recorded in `effects`, newest
-- first; what authentik answers is the parameter `external_pk`.
use selfu.Base.{Bool, ◌∷◌, Text, if◌then◌else◌}
use selfu.Domain.Entities.{User}
use selfu.Domain.Statuses.{ExternalStatus}
use selfu.Store.State.{World, Effect, ResourceType}
use selfu.Store.Exec.{Result, got, fails, Deps, Act, call, on}
use selfu.Store.Users.{get_user_by_email, create_user}
use selfu.Store.Externals.{mapping, upsert_external_resource}
use selfu.Base.{true, false, is_empty, []}
use selfu.HttpApi.{is_not_found}

unfoldable pub record_effect : Effect → World → World
record_effect e w = record w { effects = e ∷ w.effects }

module _ (d : Deps) where
  unfoldable pub ensure_user : Text → Act Text
  unfolding record_effect
  ensure_user email =
      call d (λ w. (got (d.external_pk email), record_effect (Effect.ensure_user email) w))

  unfoldable pub set_user_active : Text → Bool → Act (Unit {0})
  unfolding record_effect
  set_user_active pk active =
      call d (λ w. (got tt, record_effect (Effect.set_user_active pk active) w))

  unfoldable pub set_user_password : Text → Text → Act (Unit {0})
  unfolding record_effect
  set_user_password pk password =
      call d (λ w. (got tt, record_effect (Effect.set_user_password pk password) w))

  unfoldable pub ensure_group : Text → Act Text
  unfolding record_effect
  ensure_group slug =
      call d (λ w. (got (d.external_pk slug), record_effect (Effect.ensure_group slug) w))

  -- The best-effort identity of a new user: empty if there is no provisioner, or if it fails.
  unfoldable pub best_effort_pk : Text → World → Text × World
  unfolding ensure_user
  best_effort_pk email w =
      if d.has_identity
      then on (ensure_user email w) (λ pk w. (pk, w)) (λ e w. ([], w))
      else ([], w)

  -- `ensurePlatformUser`, and the same steps of `onboardUser`: the user of the address, and whether
  -- it was created.
  unfoldable pub ensure_platform_user : Text → Text → Act (User × Bool)
  unfolding best_effort_pk
  ensure_platform_user email display_name w =
      on (get_user_by_email d email w) (λ user w. (got (user, false), w))
        (λ e w. if is_not_found e then create (best_effort_pk email w) else (fails e, w))
    where
      mapped : User → Text → World → Result (User × Bool) × World
      mapped user pk w = if is_empty pk then (got (user, true), w) else (
        got (user, true),
        (upsert_external_resource d
            (mapping ResourceType.authentik_user user.id d.provider_name pk ExternalStatus.active)
            w).1,
      )

      create : Text × World → Result (User × Bool) × World
      create (pk, w) =
          on (create_user d email display_name d.provider_name pk w) (λ user w. mapped user pk w)
            (λ e w. (fails e, w))
