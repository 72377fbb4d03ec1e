-- ===== src/Extract/Fixes/Include.antt =====
-- `fix_include` keeps the meaning of an include.
use plugsched.Common.{
  true, false, some, ◌≡◌, ◌∙◌, ap, sym, refl, List, [], ◌∷◌, ◌++◌, ==_refl, ◌⊎◌, inl, inr, arith,
  Bool-cases,
}
use plugsched.Common.Sets.{member}
use plugsched.Common.Text.{Text, codes, text_eq, replace}
use plugsched.Common.Errors.{ok, >>=-eq-ok, ok-injective}
use plugsched.Extract.Lines.{get_elem?, or_index_error}
use plugsched.Extract.Paths.{split_on, absolute, lead, or_dot, relpath, join_path, dirname}
use plugsched.Extract.Paths.Names.{IsName, All}
use plugsched.Extract.Paths.Resolve.{relpath_resolves, from_dot}
use plugsched.Extract.Fixes.{Extraction, dst_file, fix_include}

lead-append : (p path : List Text) → lead p (p ++ path) ≡ path
unfolding lead
lead-append [] path = refl
lead-append (name ∷ p) path = rw (==_refl name) (lead-append p path)

-- The path from the working directory to a file below it is the names that lead there.
relpath_normal :
    (cwd : List Text) (path rel : Text) (names : List Text)
    → relpath cwd path (codes ".") ≡ ok rel
    → absolute cwd path ≡ cwd ++ names
    → rel ≡ or_dot names
unfolding relpath
relpath_normal cwd [] rel names h below = absurd (cc)
relpath_normal cwd (c ∷ path) rel names h below =
    sym (ok-injective _ rel h)
    ∙ ap or_dot (
        ap (λ dir. lead dir (absolute cwd (c ∷ path))) (from_dot cwd)
        ∙ ap (lead cwd) below
        ∙ lead-append cwd names)

-- An include that is fixed without an error names, between its quotes, a header `old`. Its path from
-- the working directory is the normal one: for a header in or below that directory, the names that lead
-- there with slashes between. If this path is a module file, the line stays. Else the line has `old`
-- replaced by a path that leads, from the directory of the new file, to the header to which `old`
-- leads from the directory of the source file.
pub fix_include_resolves :
    (config : Extraction) (line line' : Text)
    → All IsName config.cwd
    → fix_include config line ≡ ok line'
    → (old rel : Text) × (get_elem? (split_on b'"' line) 1 ≡ some old)
      × (absolute config.cwd rel ≡ absolute config.cwd (join_path (dirname config.src_file) old))
      × ((names : List Text)
          → absolute config.cwd (join_path (dirname config.src_file) old) ≡ config.cwd ++ names
          → rel ≡ or_dot names)
      × ((member rel config.mod_files ≡ true) × (line' ≡ line)
          ⊎ (member rel config.mod_files ≡ false)
            × ((new : Text) × (line' ≡ replace old new line)
                × (absolute (absolute config.cwd (dirname (dst_file config))) new
                    ≡ absolute config.cwd (join_path (dirname config.src_file) old))))
unfolding fix_include
fix_include_resolves config line line' h e =
    let (old, found, h₁) = >>=-eq-ok (or_index_error (get_elem? (split_on b'"' line) 1)) _ e in
    let header = join_path (dirname config.src_file) old in
    let (rel, r, h₂) = >>=-eq-ok (relpath config.cwd header (codes ".")) _ h₁ in
    let same : absolute config.cwd rel ≡ absolute config.cwd header =
      ap (λ dir. absolute dir rel) (sym (from_dot config.cwd))
      ∙ relpath_resolves config.cwd header (codes ".") rel h r in
    (
      old,
      rel,
      ground arith,
      same,
      λ names. relpath_normal config.cwd header rel names r,
      elim (Bool-cases (member rel config.mod_files)) [
        | inl inside ↦ inl (inside, sym (ok-injective line line' (rw inside at h₂)))
        | inr outside ↦
            let dir = dirname (dst_file config) in
            let (new, n, h₃) = >>=-eq-ok (relpath config.cwd rel dir) _ (rw outside at h₂) in
            inr (
              outside,
              (
                new,
                sym (ok-injective _ line' h₃),
                relpath_resolves config.cwd rel dir new h n ∙ same,
              ),
            )
      ],
    )
