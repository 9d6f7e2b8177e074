-- ===== src/Tests/Names.antt =====
-- The theorems on names, slugs and addresses at concrete texts.
use selfu.Base.{
  ℕ, ◌≡◌, ◌↔◌, refl, true, arith, List, ◌∷◌, [], ◌++◌, some, Text, text, ◌==◌, split, to_lower,
  trim_space, cut, ok, Checked, is_space,
}
use selfu.Domain.Names.{normalize_domain, hostname_within_domain, canonical}
use selfu.Domain.Names.Hostnames.{
  IsHostname, normalize_domain-IsHostname, normalize_domain-of_IsHostname,
}
use selfu.Domain.Names.Containment.{labels, hostname_within_domain_iff}
use selfu.Domain.Slugs.{slugify}
use selfu.Domain.Slugs.Shape.{IsSlug, slugify-IsSlug, slugify-of_IsSlug}
use selfu.Domain.Addresses.{validate_local_part, build_address}
use selfu.Domain.Addresses.DotAtoms.{IsDotAtom, validate_local_part_iff}
use selfu.Domain.Addresses.Parts.{build_address_iff}
use selfu.Domain.Entities.{looks_like_email}
use selfu.Domain.Entities.Emails.{looks_like_email_iff}

abbrev ascii : Text → Checked Text
ascii s = ok s

normalizes : normalize_domain ascii (text " Mail.X.org. ") ≡ ok (text "mail.x.org")
unfolding normalize_domain selfu.Base.trim_suffix trim_space selfu.Domain.Names.check_labels split
    to_lower
normalizes = refl

normalize_domain-IsHostname_example :
    IsHostname (text "mail.x.org") × (to_lower (text "mail.x.org") ≡ text "mail.x.org")
normalize_domain-IsHostname_example =
    normalize_domain-IsHostname ascii (text " Mail.X.org. ") (text "mail.x.org") normalizes

normalize_domain-of_IsHostname_example :
    normalize_domain ascii (text "mail.x.org") ≡ ok (text "mail.x.org")
normalize_domain-of_IsHostname_example =
    normalize_domain-of_IsHostname ascii (text "mail.x.org") normalize_domain-IsHostname_example.0
      (ground arith) refl

within : hostname_within_domain (text "Git.x.org") (text "x.org") ≡ true
unfolding hostname_within_domain canonical selfu.Base.trim_suffix to_lower trim_space
    selfu.Base.has_suffix
within = refl

hostname_within_domain_iff_example :
    (more : List Text) × (labels (text "Git.x.org") ≡ more ++ labels (text "x.org"))
hostname_within_domain_iff_example =
    ((hostname_within_domain_iff (text "Git.x.org") (text "x.org")).0 within).2

slugify-IsSlug_example : IsSlug (slugify (text " My Team! "))
slugify-IsSlug_example = slugify-IsSlug (text " My Team! ")

slugs : slugify (text " My Team! ") ≡ text "my-team"
unfolding slugify selfu.Base.trim_byte selfu.Domain.Slugs.slug_loop to_lower trim_space
    selfu.Domain.Names.is_alnum
slugs = refl

slugify-of_IsSlug_example : slugify (slugify (text " My Team! ")) ≡ slugify (text " My Team! ")
slugify-of_IsSlug_example = slugify-of_IsSlug (slugify (text " My Team! ")) slugify-IsSlug_example

accepts : validate_local_part (text "Bob.B") ≡ ok tt
unfolding validate_local_part trim_space selfu.Domain.Addresses.all_atom_bytes
    selfu.Domain.Addresses.is_atom_byte selfu.Domain.Addresses.dots_misplaced selfu.Base.has_prefix
    selfu.Base.has_suffix selfu.Base.contains
accepts = refl

validate_local_part_iff_example : IsDotAtom (trim_space (text "Bob.B"))
validate_local_part_iff_example = (validate_local_part_iff (text "Bob.B")).0 accepts

builds : build_address ascii (text "Bob.B") (text "X.org") ≡ ok (text "bob.b@x.org")
unfolding build_address validate_local_part trim_space selfu.Domain.Addresses.all_atom_bytes
    selfu.Domain.Addresses.is_atom_byte selfu.Domain.Addresses.dots_misplaced selfu.Base.has_prefix
    selfu.Base.has_suffix selfu.Base.contains normalize_domain selfu.Base.trim_suffix
    selfu.Domain.Names.check_labels split to_lower selfu.Domain.Addresses.splits_host_port
builds = refl

build_address_iff_example :
    IsDotAtom (trim_space (text "Bob.B"))
    × ((norm : Text) × (normalize_domain ascii (text "X.org") ≡ ok norm)
        × (text "bob.b@x.org" ≡ to_lower (text "Bob.B") ++ (b'@' ∷ norm)))
build_address_iff_example =
    (build_address_iff ascii (text "Bob.B") (text "X.org") (text "bob.b@x.org")).0 builds

normal : normalize_domain ascii (text "x.org") ≡ ok (text "x.org")
unfolding normalize_domain selfu.Base.trim_suffix trim_space selfu.Domain.Names.check_labels split
    to_lower
normal = refl

spaced : validate_local_part (text " bob") ≡ ok tt
unfolding validate_local_part trim_space selfu.Domain.Addresses.all_atom_bytes
    selfu.Domain.Addresses.is_atom_byte selfu.Domain.Addresses.dots_misplaced selfu.Base.has_prefix
    selfu.Base.has_suffix selfu.Base.contains
spaced = refl

looks : looks_like_email (text "bob@x.org") ≡ true
unfolding looks_like_email selfu.Domain.Entities.positions_ok selfu.Base.index_byte
    selfu.Base.last_index_byte selfu.Domain.Entities.domain_part_ok selfu.Base.contains_any
    selfu.Base.contains
looks = refl

looks_like_email_iff_example : looks_like_email (text "bob@x.org") ≡ true
looks_like_email_iff_example =
    (looks_like_email_iff (text "bob@x.org")).1 ((looks_like_email_iff (text "bob@x.org")).0 looks)
