-- ===== src/Domain/Roles.antt =====
-- The roles of internal/domain/identity.go. A role is a string in the source: `other` is any string
-- that is none of the three, `other []` the empty one that stands for no role given.
use selfu.Base.{
  ℕ, ◌≡◌, ◌↔◌, Bool, true, false, ◌&&◌, [], arith, Text, text, leb, ◌==◌, if◌then◌else◌,
}

pub data OrgRole : Type 0 where
  owner admin member : OrgRole
  other : Text → OrgRole

-- `OrgRole(s)` for the string `s` of a request
unfoldable pub org_role : Text → OrgRole
org_role s =
    if s == text "owner"
    then owner
    else if s == text "admin"
    then admin
    else if s == text "member"
    then member
    else other s

unfoldable pub valid : OrgRole → Bool
valid owner = true
valid admin = true
valid member = true
valid (other s) = false

unfoldable pub rank : OrgRole → ℕ
rank owner = 3
rank admin = 2
rank member = 1
rank (other s) = 0

unfoldable pub can_manage : OrgRole → OrgRole → Bool
unfolding valid rank
can_manage r required = valid r && (valid required && leb (rank required) (rank r))

-- `if role == "" { role = RoleMember }`
unfoldable pub default_role : OrgRole → OrgRole
default_role (other []) = member
default_role r = r

-- The roles that suffice for an action, listed.
abbrev pub Suffices : OrgRole → OrgRole → Type 0
Suffices owner owner = Unit
Suffices owner admin = Unit
Suffices owner member = Unit
Suffices admin admin = Unit
Suffices admin member = Unit
Suffices member member = Unit
Suffices _ _ = ⊥

-- A role may perform an action that requires another one exactly for the six listed pairs: an owner
-- everything, an admin what needs an admin or a member, a member what needs a member, and an unknown
-- role nothing, whatever is required.
pub can_manage_iff : (r required : OrgRole) → (can_manage r required ≡ true) ↔ Suffices r required
unfolding can_manage
can_manage_iff owner owner = ground arith
can_manage_iff owner admin = ground arith
can_manage_iff owner member = ground arith
can_manage_iff owner (other s) = ground arith
can_manage_iff admin owner = ground arith
can_manage_iff admin admin = ground arith
can_manage_iff admin member = ground arith
can_manage_iff admin (other s) = ground arith
can_manage_iff member owner = ground arith
can_manage_iff member admin = ground arith
can_manage_iff member member = ground arith
can_manage_iff member (other s) = ground arith
can_manage_iff (other s) owner = ground arith
can_manage_iff (other s) admin = ground arith
can_manage_iff (other s) member = ground arith
can_manage_iff (other s) (other t) = ground arith

pub can_manage-owner : (r : OrgRole) → can_manage r owner ≡ true → r ≡ owner
unfolding can_manage
can_manage-owner owner h = ground arith
can_manage-owner admin h = ground arith
can_manage-owner member h = ground arith
can_manage-owner (other s) h = ground arith
