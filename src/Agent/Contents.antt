-- ===== src/Agent/Contents.antt =====
-- What the files hold before and after they are read and written.
use mathlib.Core.Option
use selfu.Base.{
  ◌≡◌, ◌≢◌, sym, inl, inr, refl, true, false, Option, some, Text, ◌==◌, ==_iff, ==_refl, ==_ne,
  Option-cases,
}
use selfu.Store.Exec.Tables.{find}
use selfu.Store.Exec.Tables.Rows.{find-delete_where_other}
use selfu.Agent.{Host, Disk, File, read_file, write_file, put_file}

-- What a file holds
unfoldable pub content_of : Text → Disk → Option Text
content_of path s = Option.map (λ f. f.content) (find (λ f. f.path == path) s.files)

module _ (h : Host) (s : Disk) where
  pub read_file-content :
      (path : Text) → h.refused s.calls ≡ false → (read_file h path s).0 ≡ content_of path s
  unfolding read_file content_of
  read_file-content path up = elim (Option-cases (find (λ f. f.path == path) s.files)) [
    | inl e ↦ simp (up, e) refl
    | inr (f, e) ↦ simp (up, e) refl
  ]

pub write_file-content :
    (h : Host) (path content : Text) (s : Disk)
    → h.refused s.calls ≡ false
    → ((write_file h path content s).0 ≡ true)
      × (content_of path (write_file h path content s).1 ≡ some content)
      × ((other : Text)
          → other ≢ path
          → content_of other (write_file h path content s).1 ≡ content_of other s)
unfolding write_file put_file content_of find
write_file-content h path content s up = (
  simp up refl,
  simp (up, ==_refl path) refl,
  λ other ne.
      let rows =
        find-delete_where_other {A = File} (λ f. f.path == other) (λ f. f.path == path)
          (λ f e. rw ((==_iff f.path other).0 e) (==_ne other path ne)) s.files in
      simp (up, ==_ne path other (λ q. ne (sym q)), rows) refl,
)
