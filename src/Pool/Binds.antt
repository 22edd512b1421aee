-- ===== src/Pool/Binds.antt =====
-- pkg/plugins/sandbox/docker/pool.go: mounts, their bind strings, and the comparison of two sets of binds.
use whiteagent.Common.{
  ◌||◌, Bool, true, false, ◌&&◌, List, [], ◌∷◌, ◌++◌, Text, codes, text_eq, text_le, after,
  has_prefix, length, ◌==◌, if◌then◌else◌, is_empty,
}

-- port.Mount
pub record Mount : Type 0 where
  pub source : Text
  pub target : Text
  pub read_only : Bool

abbrev bind_of : Mount → Text
bind_of m = m.source ++ (b':' ∷ (m.target ++ (if m.read_only then codes ":ro" else [])))

unfoldable pub mounts_to_binds : List Mount → List Text
mounts_to_binds [] = []
mounts_to_binds (m ∷ ms) = bind_of m ∷ mounts_to_binds ms

unfoldable pub insert_sorted : Text → List Text → List Text
insert_sorted s [] = s ∷ []
insert_sorted s (t ∷ ts) =
    let rest = insert_sorted s ts in if text_le s t then s ∷ t ∷ ts else t ∷ rest

-- sort.Strings
unfoldable pub sort_strings : List Text → List Text
unfolding insert_sorted
sort_strings [] = []
sort_strings (s ∷ ss) = insert_sorted s (sort_strings ss)

-- strings.Join with the separator "\n"
unfoldable pub join_lines : List Text → Text
join_lines [] = []
join_lines (s ∷ []) = s
join_lines (s ∷ t ∷ ts) = s ++ (10 ∷ join_lines (t ∷ ts))

unfoldable pub binds_match : List Text → List Text → Bool
binds_match actual expected =
    if length actual == length expected
    then text_eq (join_lines (sort_strings actual)) (join_lines (sort_strings expected))
    else false

-- The path of a mount within the data directory of this process, as the daemon's host has it.
translated : Text → Text → Mount → Mount
translated host container m =
    if has_prefix m.source container
    then record m { source = host ++ after (length container) m.source }
    else m

translate_all : Text → Text → List Mount → List Mount
unfolding translated
translate_all host container [] = []
translate_all host container (m ∷ ms) =
    translated host container m ∷ translate_all host container ms

unfoldable pub translate_mount_paths : Text → Text → List Mount → List Mount
unfolding translate_all
translate_mount_paths host container mounts =
    if is_empty host || is_empty container then mounts else translate_all host container mounts

-- filepath.IsAbs on a Unix system
abbrev is_abs : Text → Bool
is_abs path = has_prefix path (codes "/")

unfoldable pub validate_mounts : List Mount → Bool
validate_mounts [] = true
validate_mounts (m ∷ ms) = is_abs m.source && is_abs m.target && validate_mounts ms
