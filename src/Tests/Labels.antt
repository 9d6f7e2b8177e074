-- ===== src/Tests/Labels.antt =====
-- The theorems on derived names at concrete instance ids. The last run shows that a router's name
-- may end with a dash, since it is cut after its dashes were trimmed. A manifest passes the checks
-- and its compose file is the same for two orders of its environment.
use selfu.Base.{ℕ, ◌≤◌, ◌≡◌, ◌≢◌, refl, ◌||◌, Text, text, eqb, length, All, []}
use mathlib.Core.List.Perm
use selfu.Base.{==_iff, Bool-cases, inl, inr, sym, List, ◌∷◌, Option, some, none, ◌==◌, ok}
use selfu.Deploy.Manifest.{Manifest, validate_manifest}
use selfu.Deploy.Compose.{compose, env_value, sorted_keys}
use selfu.Deploy.Compose.Order.{compose-Perm}
use selfu.Deploy.{project_name, router_name}
use selfu.Deploy.Naming.{Kept, project_name-IsProjectName, router_name-IsRouterName}

project_name-IsProjectName_example :
    (project_name (text "My App_1") ≢ [])
    × (length (project_name (text "My App_1")) ≤ 40)
    × All (Kept (λ c. eqb c b'-' || eqb c b'_')) (project_name (text "My App_1"))
project_name-IsProjectName_example = project_name-IsProjectName (text "My App_1")

router_name-IsRouterName_example :
    (router_name (text "-Git.ea-") ≢ [])
    × (length (router_name (text "-Git.ea-")) ≤ 20)
    × All (Kept (λ c. eqb c b'-')) (router_name (text "-Git.ea-"))
router_name-IsRouterName_example = router_name-IsRouterName (text "-Git.ea-")

runs :
    (project_name (text "My App_1") ≡ text "myapp_1")
    × (router_name (text "-Git.ea-") ≡ text "gitea")
    × (router_name (text "abcdefghijklmnopqrs-tuv") ≡ text "abcdefghijklmnopqrs-")
unfolding project_name router_name selfu.Base.trim_byte
runs = (refl, refl, refl)

abbrev wiki : Manifest
wiki = record {
  id = text "wiki";
  version = text "1";
  engine = text "docker-compose";
  image = text "wiki:1";
  container_port = some 80;
  storage = record { name = text "data"; type = text "persistent" } ∷ [];
  database = text "none";
  authentication = text "oidc";
  email = none;
}

valid : validate_manifest wiki ≡ ok tt
unfolding validate_manifest
valid = refl

abbrev env : List (Text × Text)
env = (text "B", text "2") ∷ (text "A", text "1") ∷ []

abbrev others : List (Text × Text)
others = (text "A", text "1") ∷ (text "B", text "2") ∷ []

abbrev quoted : Text → Text
quoted s = s

same_values : (k : Text) → env_value k env ≡ env_value k others
unfolding env_value ◌==◌
same_values k = elim (Bool-cases (text "B" == k)) [
  | inl e ↦ rw (sym ((==_iff (text "B") k).0 e)) refl
  | inr e ↦ rw e refl
]

sorts : sorted_keys (text "B" ∷ text "A" ∷ []) ≡ text "A" ∷ text "B" ∷ []
unfolding sorted_keys selfu.Deploy.Compose.sift selfu.Deploy.Compose.text_ltb
sorts = refl

compose-Perm_example :
    compose quoted (text "w1") (some wiki) env ≡ compose quoted (text "w1") (some wiki) others
compose-Perm_example =
    compose-Perm quoted (text "w1") env others (Perm.swap (text "A") (text "B") []) same_values
      (some wiki)
