-- ===== src/Executor/Archive.antt =====
-- The archive of a workspace: `_archive_workspace` of app/codex/executor_client.py, which makes it,
-- and the tests of `_extract_archive` of app/codex/executor.py.
mod Accepted
mod Tests
use text.Mathlib.Text.{find?}
use inryeok_bot.Prelude.{
  ℕ, suc, ◌+◌, ◌==◌, String, Bool, true, false, ◌&&◌, ◌||◌, not, Option, none, some, List, [], ◌∷◌,
  ltb, str_eq, if◌then◌else◌, is_present, any, length, ◌⊎◌, inl, inr,
}

abbrev pub max_archive_bytes : ℕ
max_archive_bytes = 25000000

abbrev pub max_archive_files : ℕ
max_archive_files = 20000

abbrev pub max_unpacked_bytes : ℕ
max_unpacked_bytes = 50000000

pub data EntryKind : Type 0 where
  file directory link other : EntryKind

-- A file of the workspace, or a member of an archive: the parts of its name and its bytes. `inode`
-- is the identity of a regular file that has several names, and none for every other entry.
pub record Entry : Type 0 where
  pub parts : List String
  pub is_absolute : Bool
  pub kind : EntryKind
  pub size : ℕ
  pub inode : Option ℕ

abbrev pub is_file : EntryKind → Bool
is_file file = true
is_file _ = false

abbrev pub is_link : EntryKind → Bool
is_link link = true
is_link _ = false

abbrev pub is_directory : EntryKind → Bool
is_directory directory = true
is_directory _ = false

abbrev pub has_part : String → Entry → Bool
has_part part e = any (str_eq part) e.parts

-- The code of the error, or the members so far.
abbrev pub Archived : Type 0
Archived = String ⊎ List Entry

abbrev add_member : Entry → Archived → Archived
add_member e (inl code) = inl code
add_member e (inr members) = inr (e ∷ members)

-- `TarFile.gettarinfo`, which knows the inodes that the archive has: the second name of a file
-- that has several becomes a hard link, without bytes.
pub get_tar_info : List ℕ → Option ℕ → Entry → Entry
get_tar_info inodes none e = e
get_tar_info inodes (some n) e =
    if any (λ m. m == n) inodes then record e { kind = link; size = 0 } else e

abbrev pub note_inode : Option ℕ → List ℕ → List ℕ
note_inode none inodes = inodes
note_inode (some n) inodes = n ∷ inodes

-- The loop over the candidates, with `count`, `unpacked_bytes` and the archive's inodes. A
-- candidate that is a symbolic link has the kind `link`.
pub archive_files : List Entry → ℕ → ℕ → List ℕ → Archived
unfolding get_tar_info
archive_files [] count bytes inodes = inr []
archive_files (e ∷ rest) count bytes inodes =
    let skipped = archive_files rest count bytes inodes in
    let added = archive_files rest (suc count) (bytes + e.size) (note_inode e.inode inodes) in
    if has_part ".git" e
    then skipped
    else if is_link e.kind
    then inl "EXECUTOR_UNSAFE_WORKSPACE"
    else if not (is_file e.kind)
    then skipped
    else if ltb max_archive_files (suc count)
    then inl "EXECUTOR_INPUT_LIMIT"
    else if ltb max_unpacked_bytes (bytes + e.size)
    then inl "EXECUTOR_INPUT_LIMIT"
    else add_member (get_tar_info inodes e.inode e) added

-- `packed` is the size of the compressed archive of the members.
module _ (packed : List Entry → ℕ) where
  limit_payload : Archived → Archived
  limit_payload (inl code) = inl code
  limit_payload (inr members) =
      if ltb max_archive_bytes (packed members) then inl "EXECUTOR_INPUT_LIMIT" else inr members

  pub archive_workspace : List Entry → Archived
  unfolding limit_payload
  archive_workspace candidates = limit_payload (archive_files candidates 0 0 [])

abbrev pub total_size : List Entry → ℕ
total_size [] = 0
total_size (e ∷ rest) = let n = total_size rest in if is_file e.kind then e.size + n else n

-- `PureWindowsPath(...).drive`, which `has_drive` stands for, or a backslash.
abbrev pub is_windows_path : (List String → Bool) → Entry → Bool
is_windows_path has_drive e =
    has_drive e.parts || any (λ part. is_present (find? part "\\")) e.parts

-- The tests on one member. The destination is an empty directory, so the target lies in it
-- exactly if the name is relative and has no `..`.
abbrev pub unsafe_member : (List String → Bool) → Entry → Bool
unsafe_member has_drive e =
    is_windows_path has_drive e
    || (e.is_absolute || has_part ".." e)
    || (is_link e.kind || not (is_file e.kind || is_directory e.kind))

-- Whether `_extract_archive` raises, on a payload of so many bytes.
pub rejects_archive : (List String → Bool) → ℕ → List Entry → Bool
rejects_archive has_drive payload members =
    ltb max_archive_bytes payload
    || ltb max_archive_files (length members)
    || ltb max_unpacked_bytes (total_size members)
    || any (unsafe_member has_drive) members
