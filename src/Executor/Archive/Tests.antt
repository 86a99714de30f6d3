-- ===== src/Executor/Archive/Tests.antt =====
-- Witnesses of the archive.
use inryeok_bot.Prelude.{
  none, some, inr, true, String, Bool, false, List, [], ◌∷◌, ◌≡◌, refl, length,
}
use inryeok_bot.Executor.Archive.{
  Entry, file, directory, link, get_tar_info, archive_files, limit_payload, archive_workspace,
  rejects_archive,
}
use inryeok_bot.Executor.Archive.Accepted.{archive_workspace-accepted}

abbrev a_file : Entry
a_file = record {
  parts = "app" ∷ "main.py" ∷ [];
  is_absolute = false;
  kind = file;
  size = 40;
  inode = none;
}

abbrev a_directory : Entry
a_directory = record {
  parts = "app" ∷ [];
  is_absolute = false;
  kind = directory;
  size = 0;
  inode = none;
}

abbrev a_git_file : Entry
a_git_file = record {
  parts = ".git" ∷ "HEAD" ∷ [];
  is_absolute = false;
  kind = file;
  size = 9;
  inode = none;
}

no_drive : List String → Bool
no_drive _ = false

archive_workspace-accepted_example : rejects_archive no_drive 1 (a_file ∷ []) ≡ false
unfolding archive_workspace archive_files limit_payload no_drive
archive_workspace-accepted_example =
    archive_workspace-accepted no_drive length (a_git_file ∷ a_directory ∷ a_file ∷ [])
      (a_file ∷ []) ((refl, refl, refl), ((refl, refl, refl), ((refl, refl, refl), tt))) refl

-- Two names of one file are packed, and refused.
abbrev shared_file : Entry
shared_file = record a_file { inode = some 7 }

abbrev second_name : Entry
second_name = record a_file { parts = "app" ∷ "other.py" ∷ []; inode = some 7 }

abbrev hard_link : Entry
hard_link = record second_name { kind = link; size = 0 }

hard_link-packed :
    archive_workspace length (shared_file ∷ second_name ∷ []) ≡ inr (shared_file ∷ hard_link ∷ [])
unfolding archive_workspace archive_files limit_payload get_tar_info
hard_link-packed = refl

hard_link-refused : rejects_archive no_drive 2 (shared_file ∷ hard_link ∷ []) ≡ true
unfolding no_drive rejects_archive
hard_link-refused = refl
