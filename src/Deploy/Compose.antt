-- ===== src/Deploy/Compose.antt =====
-- Compose files: `Compose` and `sortedKeys` of internal/deploy/deploy.go. The map of the environment is
-- the list of its entries in the order in which the program iterates over them; `quote` is the verb %q
-- of fmt.
pub mod Order
use selfu.Base.{
  Bool, true, false, Option, none, some, List, [], ◌∷◌, ◌++◌, Text, text, ◌==◌, map, if◌then◌else◌,
  is_empty, ltb, eqb, ◌&&◌, Checked, ok, err,
}
use selfu.Deploy.{project_name}
use selfu.Deploy.Manifest.{Manifest, Storage}

-- `<` on strings
unfoldable pub text_ltb : Text → Text → Bool
text_ltb s [] = false
text_ltb [] (d ∷ t) = true
text_ltb (c ∷ s) (d ∷ t) = if ltb c d then true else eqb c d && text_ltb s t

-- The inner loop: the new key moves to the left past the greater ones. The sorted part is kept with
-- its last key first.
unfoldable pub sift : Text → List Text → List Text
unfolding text_ltb
sift k [] = k ∷ []
sift k (y ∷ ys) = let rest = sift k ys in if text_ltb k y then y ∷ rest else k ∷ y ∷ ys

-- The outer loop
unfoldable pub sort_onto : List Text → List Text → List Text
unfolding sift
sort_onto done [] = done
sort_onto done (k ∷ keys) = sort_onto (sift k done) keys

unfoldable pub reverse_onto : List Text → List Text → List Text
reverse_onto done [] = done
reverse_onto done (k ∷ keys) = reverse_onto (k ∷ done) keys

unfoldable pub sorted_keys : List Text → List Text
unfolding sort_onto reverse_onto
sorted_keys keys = reverse_onto [] (sort_onto [] keys)

unfoldable pub env_value : Text → List (Text × Text) → Text
unfolding ◌==◌
env_value k [] = []
env_value k ((name, value) ∷ rest) =
    let later = env_value k rest in if name == k then value else later

-- Each line is ended.
unfoldable pub write_lines : List Text → Text
write_lines [] = []
write_lines (l ∷ lines) = l ++ (b'\n' ∷ write_lines lines)

-- A heading with its lines, if there are any
unfoldable pub section : Text → List Text → List Text
section heading [] = []
section heading (l ∷ lines) = heading ∷ l ∷ lines

unfoldable pub mounts : List Storage → List Text
unfolding ◌==◌
mounts [] = []
mounts (s ∷ rest) =
    let others = mounts rest in
    if s.type == text "persistent"
    then (text "      - " ++ (s.name ++ (text ":/srv/" ++ s.name))) ∷ others
    else others

module _ (quote : Text → Text) where
  unfoldable pub compose_lines : Text → Manifest → List (Text × Text) → List Text
  unfolding section mounts sorted_keys env_value project_name
  compose_lines instance_id m env =
      ((text "name: platform-" ++ project_name instance_id)
        ∷ text "services:"
        ∷ text "  app:"
        ∷ (text "    image: " ++ quote m.image)
        ∷ text "    restart: unless-stopped"
        ∷ [])
      ++ (section (text "    environment:") (
            map (λ k. text "      " ++ (k ++ (text ": " ++ quote (env_value k env))))
              (sorted_keys (map (λ e. e.0) env)))
          ++ (section (text "    volumes:") (mounts m.storage)
              ++ section (text "volumes:")
                  (map (λ s. text "  " ++ (s.name ++ text ":")) m.storage)))

  unfoldable pub compose : Text → Option Manifest → List (Text × Text) → Checked Text
  unfolding compose_lines write_lines ◌==◌
  compose instance_id none env =
      if is_empty instance_id
      then err "deploy: instance id is required"
      else err "deploy: catalog entry is not docker-compose"
  compose instance_id (some m) env =
      if is_empty instance_id
      then err "deploy: instance id is required"
      else if m.engine == text "docker-compose"
      then ok (write_lines (compose_lines instance_id m env))
      else err "deploy: catalog entry is not docker-compose"
