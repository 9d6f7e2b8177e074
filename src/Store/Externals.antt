-- ===== src/Store/Externals.antt =====
-- Identities mirrored in authentik: internal/store/external.go.
use selfu.Base.{
  Bool, true, false, ◌&&◌, Option, none, some, List, [], ◌∷◌, Text, ◌==◌, if◌then◌else◌, is_empty,
}
use selfu.Domain.Statuses.{ExternalStatus}
use selfu.Store.State.{World, ExternalResource, ResourceType}
use selfu.Store.Exec.{Result, got, Deps, Act, call, draw, found}
use selfu.Store.Exec.Tables.{find, update_where}

unfoldable pub same_type : ResourceType → ResourceType → Bool
same_type ResourceType.authentik_user ResourceType.authentik_user = true
same_type ResourceType.authentik_group ResourceType.authentik_group = true
same_type ResourceType.authentik_application ResourceType.authentik_application = true
same_type ResourceType.authentik_provider ResourceType.authentik_provider = true
same_type _ _ = false

unfoldable pub is_mapping : ResourceType → Text → ExternalResource → Bool
unfolding same_type
is_mapping type object r = same_type r.resource_type type && r.platform_object_id == object

unfoldable pub set_externals : List ExternalResource → World → World
set_externals rows w = record w { externals = rows }

-- The columns that the upsert overwrites.
unfoldable pub remap : ExternalResource → ExternalResource → ExternalResource
remap new row = record row {
  external_id = new.external_id;
  provider = new.provider;
  status = new.status;
}

-- `upsertExternalSQL`
unfoldable pub upsert_mapping : ExternalResource → Act ExternalResource
unfolding set_externals is_mapping remap
upsert_mapping new w = go (find (is_mapping new.resource_type new.platform_object_id) w.externals)
  where
    go : Option ExternalResource → Result ExternalResource × World
    go none = (got new, set_externals (new ∷ w.externals) w)
    go (some row) = (
      got (remap new row),
      set_externals
          (update_where (is_mapping new.resource_type new.platform_object_id) (remap new)
            w.externals)
          w,
    )

-- A row with the columns that callers give; the others take the defaults of the table.
unfoldable pub mapping : ResourceType → Text → Text → Text → ExternalStatus → ExternalResource
mapping type object provider external_id status = record {
  id = [];
  resource_type = type;
  platform_object_id = object;
  provider = provider;
  external_id = external_id;
  observed_hash = [];
  status = status;
  last_error = [];
}

module _ (d : Deps) where
  unfoldable pub upsert_external_resource : ExternalResource → Act ExternalResource
  unfolding upsert_mapping
  upsert_external_resource r w =
      let drawn = draw d w in
      if is_empty r.id
      then call d (upsert_mapping (record r { id = drawn.0 })) drawn.1
      else call d (upsert_mapping r) w

  unfoldable pub get_external_resource : ResourceType → Text → Act ExternalResource
  unfolding is_mapping
  get_external_resource type object =
      call d (λ w. (found (find (is_mapping type object) w.externals), w))

  unfoldable pub set_external_observed : Text → ExternalStatus → Text → Text → Act (Unit {0})
  unfolding set_externals
  set_external_observed id status observed last_error = call d (λ w. (
    got tt,
    set_externals
        (update_where (λ r. r.id == id)
          (λ r. record r { status = status; observed_hash = observed; last_error = last_error })
          w.externals)
        w,
  ))

  unfoldable pub set_external_status : Text → ExternalStatus → Text → Act (Unit {0})
  unfolding set_externals
  set_external_status id status last_error = call d (λ w. (
    got tt,
    set_externals
        (update_where (λ r. r.id == id) (λ r. record r { status = status; last_error = last_error })
          w.externals)
        w,
  ))
