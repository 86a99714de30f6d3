-- ===== src/Executor/Archive/Accepted.antt =====
-- What the client packs, the executor unpacks.
use inryeok_bot.Prelude.{
  Option, none, some, ◌==◌, ◌⊎◌, ℕ, suc, ◌+◌, ◌≤◌, String, Bool, true, false, not, List, [], ◌∷◌,
  ◌≡◌, refl, ltb, if◌then◌else◌, Bool-cases, any, length, inl, inr, All, arith,
}
use inryeok_bot.Executor.Archive.{
  Entry, EntryKind, file, directory, link, other, is_file, is_link, has_part, is_windows_path,
  unsafe_member, max_archive_bytes, max_archive_files, max_unpacked_bytes, Archived, archive_files,
  get_tar_info, note_inode, limit_payload, archive_workspace, total_size, rejects_archive,
  add_member,
}

-- A path as `relative_to` gives it, without a drive or a backslash.
abbrev pub Portable : (List String → Bool) → Entry → Type 0
Portable has_drive e =
    (e.is_absolute ≡ false) × (has_part ".." e ≡ false) × (is_windows_path has_drive e ≡ false)

abbrev pub is_hard_link : Entry → Bool
is_hard_link e = is_link e.kind

-- What holds of the members, after so many files and bytes.
record Fits (has_drive : List String → Bool) (count bytes : ℕ) (members : List Entry) : Type 0 where
  files : count + length members ≤ max_archive_files
  sizes : bytes + total_size members ≤ max_unpacked_bytes
  links : any (unsafe_member has_drive) members ≡ any is_hard_link members

abbrev FitsResult : (List String → Bool) → ℕ → ℕ → Archived → Type 0
FitsResult has_drive count bytes (inl code) = Unit
FitsResult has_drive count bytes (inr members) = Fits has_drive count bytes members

-- The member of a file: its name, its kind and at most its bytes.
record Member (e m : Entry) : Type 0 where
  parts : m.parts ≡ e.parts
  absolute : m.is_absolute ≡ e.is_absolute
  kind : (m.kind ≡ file) ⊎ (m.kind ≡ link)
  size : total_size (m ∷ []) ≤ e.size

file-kind : (k : EntryKind) → is_file k ≡ true → k ≡ file
file-kind file f = refl
file-kind directory f = cc
file-kind link f = cc
file-kind other f = cc

same-Member : (e : Entry) → is_file e.kind ≡ true → Member e e
same-Member e f = record {
  parts = refl;
  absolute = refl;
  kind = inl (file-kind e.kind f);
  size = rw f (omega arith);
}

get_tar_info-Member :
    (inodes : List ℕ) (o : Option ℕ) (e : Entry)
    → is_file e.kind ≡ true
    → Member e (get_tar_info inodes o e)
unfolding get_tar_info
get_tar_info-Member inodes none e f = same-Member e f
get_tar_info-Member inodes (some n) e f = elim (Bool-cases (any (λ m. m == n) inodes)) [
  | inr a ↦ rw (get_tar_info, a) (same-Member e f)
  | inl a ↦
      rw (get_tar_info, a)
        record { parts = refl; absolute = refl; kind = inr refl; size = omega arith }
]

Member-is_hard_link :
    (has_drive : List String → Bool) (e m : Entry)
    → Portable has_drive e
    → Member e m
    → unsafe_member has_drive m ≡ is_hard_link m
Member-is_hard_link has_drive e m (a, d, w) s = elim s.kind [
  | inl k ↦ rw (s.parts, s.absolute, k, w, a, d) refl
  | inr k ↦ rw (s.parts, s.absolute, k, w, a, d) refl
]

either :
    (P : Archived → Type 0) (b : Bool) (x y : Archived)
    → (b ≡ true → P x)
    → (b ≡ false → P y)
    → P (if b then x else y)
either P true x y f g = f refl
either P false x y f g = g refl

not-eq-false : (b : Bool) → not b ≡ false → b ≡ true
not-eq-false b h = ground arith

add_member-Fits :
    (has_drive : List String → Bool) (count bytes : ℕ) (e m : Entry) (r : Archived)
    → Portable has_drive e
    → Member e m
    → FitsResult has_drive (suc count) (bytes + e.size) r
    → FitsResult has_drive count bytes (add_member m r)
add_member-Fits has_drive count bytes e m (inl code) p s h = tt
add_member-Fits has_drive count bytes e m (inr members) p s h = record {
  files = omega (arith, h.files);
  sizes = ground (arith, h.sizes, s.size);
  links = rw (Member-is_hard_link has_drive e m p s, h.links) refl;
}

within : (limit n : ℕ) → ltb limit n ≡ false → n ≤ limit
within limit n h = ground arith

archive_files-Fits :
    (has_drive : List String → Bool) (candidates : List Entry) (count bytes : ℕ) (inodes : List ℕ)
    → All (Portable has_drive) candidates
    → count ≤ max_archive_files
    → bytes ≤ max_unpacked_bytes
    → FitsResult has_drive count bytes (archive_files candidates count bytes inodes)
unfolding archive_files
archive_files-Fits has_drive [] count bytes inodes p c b = record {
  files = omega (arith, c);
  sizes = omega (arith, b);
  links = refl;
}
archive_files-Fits has_drive (e ∷ rest) count bytes inodes p c b =
    let F = FitsResult has_drive count bytes in
    let skipped = archive_files rest count bytes inodes in
    let kept = archive_files-Fits has_drive rest count bytes inodes p.1 c b in
    let noted = note_inode e.inode inodes in
    either F (has_part ".git" e) skipped _ (λ _. kept)
      λ _.
        either F (is_link e.kind) (inl "EXECUTOR_UNSAFE_WORKSPACE") _ (λ _. tt)
          λ _.
            either F (not (is_file e.kind)) skipped _ (λ _. kept)
              λ f.
                either F (ltb max_archive_files (suc count)) (inl "EXECUTOR_INPUT_LIMIT") _
                  (λ _. tt)
                  λ n.
                    either F (ltb max_unpacked_bytes (bytes + e.size)) (inl "EXECUTOR_INPUT_LIMIT")
                      _ (λ _. tt)
                      λ m.
                        add_member-Fits has_drive count bytes e (get_tar_info inodes e.inode e)
                          (archive_files rest (suc count) (bytes + e.size) noted) p.0
                          (get_tar_info-Member inodes e.inode e (not-eq-false (is_file e.kind) f))
                          (archive_files-Fits has_drive rest (suc count) (bytes + e.size) noted p.1
                            (within max_archive_files (suc count) n)
                            (within max_unpacked_bytes (bytes + e.size) m))

over_limit : (limit n : ℕ) → n ≤ limit → ltb limit n ≡ false
over_limit limit n h = ground arith

Fits-accepted :
    (has_drive : List String → Bool) (payload : ℕ) (members : List Entry)
    → Fits has_drive 0 0 members
    → ltb max_archive_bytes payload ≡ false
    → rejects_archive has_drive payload members ≡ any is_hard_link members
unfolding rejects_archive
Fits-accepted has_drive payload members h small =
    rw
      (
        small,
        over_limit max_archive_files (length members) (omega (arith, h.files)),
        over_limit max_unpacked_bytes (total_size members) (omega (arith, h.sizes)),
      )
      h.links

limit_payload-accepted :
    (has_drive : List String → Bool) (packed : List Entry → ℕ) (r : Archived) (members : List Entry)
    → FitsResult has_drive 0 0 r
    → limit_payload packed r ≡ inr members
    → rejects_archive has_drive (packed members) members ≡ any is_hard_link members
unfolding limit_payload
limit_payload-accepted has_drive packed (inl code) members h e = cc
limit_payload-accepted has_drive packed (inr kept) members h e =
    elim (Bool-cases (ltb max_archive_bytes (packed kept))) [
      | inl big ↦ let q = (rw (big, limit_payload) at e) in cc
      | inr small ↦
          let q = (rw (small, limit_payload) at e) in
          let same : kept ≡ members = cc in
          rw (← same) (Fits-accepted has_drive (packed kept) kept h small)
    ]

-- What the client packs of a workspace whose names are relative, without `..`, a drive or a
-- backslash, the executor rejects exactly if a member is a hard link: the limits on files and bytes
-- and the other kinds of entry agree.
pub archive_workspace-accepted :
    (has_drive : List String → Bool) (packed : List Entry → ℕ) (candidates members : List Entry)
    → All (Portable has_drive) candidates
    → archive_workspace packed candidates ≡ inr members
    → rejects_archive has_drive (packed members) members ≡ any is_hard_link members
unfolding archive_workspace
archive_workspace-accepted has_drive packed candidates members p e =
    limit_payload-accepted has_drive packed (archive_files candidates 0 0 []) members
      (archive_files-Fits has_drive candidates 0 0 [] p (omega arith) (omega arith)) e
