-- ===== src/Deploy/Manifest.antt =====
-- Catalog manifests: `Manifest` and `Validate` of internal/catalog/catalog.go. A port that is not
-- positive is 0, since the numbers of the model are not negative. The structs nested in a manifest are
-- flattened, and the fields that no check reads are left out.
use selfu.Base.{
  ℕ, Bool, false, not, ◌&&◌, ◌||◌, Option, none, some, List, [], ◌∷◌, Text, text, ◌==◌,
  if◌then◌else◌, is_empty, leb, trim_space, contains_any, Checked, ok, err, ◌>>◌, reject_if,
}

pub record Storage : Type 0 where
  pub name : Text
  pub type : Text

pub record Email : Type 0 where
  pub required : Bool
  pub sender_mode : Text
  pub local_part : Text
  pub smtp_required : Bool

pub record Manifest : Type 0 where
  pub id : Text
  pub version : Text
  pub engine : Text
  pub image : Text
  pub container_port : Option ℕ
  pub storage : List Storage
  pub database : Text
  pub authentication : Text
  pub email : Option Email

-- The loop over the volumes
unfoldable pub check_storage : List Storage → Checked (Unit {0})
unfolding ◌==◌
check_storage [] = ok tt
check_storage (s ∷ rest) =
    let checked = check_storage rest in
    if s.type == text "persistent" || s.type == text "ephemeral"
    then checked
    else err "catalog manifest: invalid storage type"

unfoldable pub is_auth_mode : Text → Bool
unfolding ◌==◌
is_auth_mode mode =
    mode == text "oidc"
    || (mode == text "forward-auth" || (mode == text "native" || mode == text "none"))

unfoldable pub check_email : Option Email → Checked (Unit {0})
unfolding ◌==◌ contains_any
check_email none = ok tt
check_email (some e) = do
  reject_if (not (is_empty e.sender_mode) && not (e.sender_mode == text "platform-managed"))
      "catalog manifest: invalid email.sender.mode"
  reject_if (not (is_empty e.local_part) && contains_any e.local_part (text "@ \t"))
      "catalog manifest: invalid email.sender.local_part"

unfoldable pub bad_port : Option ℕ → Bool
bad_port none = false
bad_port (some port) = leb port 0

unfoldable pub validate_manifest : Manifest → Checked (Unit {0})
unfolding check_storage is_auth_mode check_email bad_port trim_space
validate_manifest m = do
  reject_if (is_empty (trim_space m.id)) "catalog manifest: id is required"
  reject_if (is_empty (trim_space m.version)) "catalog manifest: version is required"
  reject_if (not (m.engine == text "docker-compose"))
      "catalog manifest: unsupported deployment engine"
  reject_if (m.engine == text "docker-compose" && is_empty (trim_space m.image))
      "catalog manifest: deployment.image is required for docker-compose"
  reject_if (bad_port m.container_port) "catalog manifest: http.container_port must be > 0"
  check_storage m.storage
  reject_if (not (is_auth_mode m.authentication)) "catalog manifest: invalid authentication mode"
  reject_if (not (m.database == text "postgres" || m.database == text "none"))
      "catalog manifest: unsupported database type"
  check_email m.email
