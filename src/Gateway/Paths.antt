-- ===== src/Gateway/Paths.antt =====
-- `path.join` of Node for an absolute folder and a name: `.` and empty parts are left out, and `..` goes
-- up.
use otmc_broker.Prelude.{
  Text, codes, text_eq, is_empty, List, [], ◌∷◌, ◌++◌, ◌||◌, split, if◌then◌else◌,
}

-- The folders so far, the innermost of which is the first.
abbrev pub enter : List Text → Text → List Text
enter folders part =
    if is_empty part || text_eq part (codes ".")
    then folders
    else if text_eq part (codes "..")
    then leave folders
    else part ∷ folders
  where
    leave : List Text → List Text
    leave [] = []
    leave (folder ∷ outer) = outer

unfoldable pub resolve : List Text → List Text → List Text
resolve folders [] = folders
resolve folders (part ∷ parts) = resolve (enter folders part) parts

unfoldable pub absolute : List Text → Text
absolute [] = []
absolute (folder ∷ outer) = absolute outer ++ b'/' ∷ folder

unfoldable pub join_path : Text → Text → Text
unfolding resolve absolute
join_path folder name = absolute (resolve [] (split b'/' folder ++ split b'/' name))
