-- ===== src/HttpApi/Mail/Aliases.antt =====
-- Aliases: `createMailAlias` of internal/httpapi/mail_handlers.go.
use selfu.Base.{
  true, Option, none, some, List, [], Text, ◌==◌, if◌then◌else◌, is_empty, map, Checked, ok, err,
}
use selfu.Domain.Addresses.{build_address}
use selfu.Domain.Entities.{User, DomainRow}
use selfu.Store.State.{World, Effect, MailAlias}
use selfu.Store.Exec.{got, Deps, Act, call, on}
use selfu.Store.Groups.{get_group_by_id, list_group_members}
use selfu.Store.Mail.{create_mail_alias, validate_alias_destinations, list_mail_identities_by_users}
use selfu.HttpApi.{
  Reply, problem, json, Handler, reply_error, reply_json, internal_error, with_body, is_conflict,
  audit,
}
use selfu.HttpApi.Seams.{record_effect}
use selfu.Provision.{local_part_of}
use selfu.HttpApi.Mail.{on_domain}

module _ (d : Deps) where
  unfoldable pub ensure_alias : Text → Text → List Text → Act (Unit {0})
  unfolding record_effect
  ensure_alias fqdn local destinations =
      call d (λ w. (got tt, record_effect (Effect.ensure_alias fqdn local destinations) w))

pub record CreateMailAliasReq : Type 0 where
  pub local_part : Text
  pub destinations : List Text
  pub group_id : Option Text

module _ (d : Deps) (actor : User) where
  -- The destinations of a group's alias: the active identities of its members.
  unfoldable pub group_destinations : DomainRow → Text → Handler (List Text)
  group_destinations x group w =
      on (get_group_by_id d group w)
        (λ g w.
          if g.organization_id == x.organization_id
          then on (list_group_members d group w)
              (λ members w.
                on (list_mail_identities_by_users d x.organization_id (map (λ u. u.id) members) w)
                  (λ rows w. reply_json 200 (map (λ m. m.address) rows) w)
                  (λ e w. internal_error w))
              (λ e w. internal_error w)
          else reply_error 400 "invalid_group" w)
        (λ e w. reply_error 400 "invalid_group" w)

  -- The row of an alias, stored after the mail server has it
  unfoldable pub store_alias : DomainRow → Text → List Text → Option Text → Handler MailAlias
  store_alias x addr destinations group w =
      on
        (create_mail_alias d
          (record {
            id = [];
            organization_id = x.organization_id;
            domain_id = x.id;
            group_id = group;
            local_part = local_part_of addr;
            address = addr;
            destinations = destinations;
            active = true;
          })
          w)
        (λ a w. reply_json 201 a (
          audit d
            (record {
              actor_user_id = some actor.id;
              action = "mail.alias.created";
              resource_type = "mail_alias";
              resource_id = a.id;
            })
            w))
        (λ e w. if is_conflict e then reply_error 409 "conflict" w else internal_error w)

  -- The part of `createMailAlias` after the destinations are known
  unfoldable pub route_alias : DomainRow → Text → List Text → Option Text → Handler MailAlias
  unfolding store_alias
  route_alias x addr destinations group w =
      on (validate_alias_destinations d x.organization_id destinations w)
        (λ u w.
          if d.has_chasquid
          then on (ensure_alias d x.fqdn (local_part_of addr) destinations w)
              (λ u w. store_alias x addr destinations group w)
              (λ e w. reply_error 422 "provisioning_failed" w)
          else reply_error 422 "mail_unavailable" w)
        (λ e w. reply_error 400 "invalid_destination" w)

  -- `createMailAlias`
  unfoldable pub create_alias : Text → Option CreateMailAliasReq → Handler MailAlias
  unfolding on_domain group_destinations route_alias
  create_alias id body =
      on_domain d actor id (λ x. with_body body (λ req w. requested x req req.group_id w))
    where
      addressed :
          DomainRow → List Text → Option Text → Checked Text → World → Reply MailAlias × World
      addressed x destinations group (err e) w = reply_error 400 "invalid_request" w
      addressed x destinations group (ok addr) w = route_alias x addr destinations group w

      of_group :
          DomainRow → Text → Option Text → Reply (List Text) × World → Reply MailAlias × World
      of_group x local group (problem status code, w) = reply_error status code w
      of_group x local group (json status rows, w) =
          addressed x rows group (build_address d.to_ascii local x.fqdn) w

      requested : DomainRow → CreateMailAliasReq → Option Text → World → Reply MailAlias × World
      requested x req none w =
          if is_empty req.destinations
          then reply_error 400 "invalid_request" w
          else addressed x req.destinations none (build_address d.to_ascii req.local_part x.fqdn) w
      requested x req (some group) w =
          of_group x req.local_part (some group) (group_destinations x group w)
