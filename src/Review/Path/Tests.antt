-- ===== src/Review/Path/Tests.antt =====
-- Paths that are rewritten, and paths that are refused.
use inryeok_bot.Prelude.{any, str_eq, false, ◌≡◌, refl, none, some}
use inryeok_bot.Review.Path.{
  forward_slashes, without_prefix, split_path, path_parts, append_text, join_path, as_posix,
  is_absolute, has_nul, has_drive, normalize_value, normalize_path,
}
use inryeok_bot.Review.Path.Safe.{normalize_path_stays}

normalized :
    (normalize_path "a/app\\x.py" ≡ some "app/x.py")
    × (normalize_path "./src//main.py" ≡ some "src/main.py")
    × (normalize_path "app/../etc" ≡ none)
    × (normalize_path "/etc/passwd" ≡ none)
    × (normalize_path "c:/x" ≡ none)
unfolding forward_slashes without_prefix split_path path_parts append_text join_path as_posix
    is_absolute has_nul has_drive normalize_value normalize_path
normalized = (refl, refl, refl, refl, refl)

backslashed : normalize_path "a/app\\x.py" ≡ some "app/x.py"
unfolding forward_slashes without_prefix split_path path_parts append_text join_path as_posix
    is_absolute has_nul has_drive normalize_value normalize_path
backslashed = refl

normalize_path_stays_example :
    (is_absolute "app/x.py" ≡ false)
    × (any (str_eq "..") (path_parts "app/x.py") ≡ false)
    × (as_posix (path_parts "app/x.py") ≡ "app/x.py")
normalize_path_stays_example = normalize_path_stays "a/app\\x.py" "app/x.py" backslashed
