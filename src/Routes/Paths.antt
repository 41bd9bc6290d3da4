-- ===== src/Routes/Paths.antt =====
-- path.Clean on rooted paths: the parts between slashes, with the empty ones and "." dropped, and
-- ".." taking the part before it along.
use n8n_gw.Base.{Text, codes, ◌==◌, if◌then◌else◌, ◌||◌, List, [], ◌∷◌, ◌++◌, reverse, split, join}
use mathlib.Core.List.{tail}

-- The stack has the last part at its head; ".." at the root is dropped.
unfoldable pub resolve : List Text → Text → List Text
unfolding ◌==◌
resolve stack part =
    if part == [] || part == codes "."
    then stack
    else if part == codes ".."
    then tail stack
    else part ∷ stack

unfoldable pub resolve_all : List Text → List Text → List Text
unfolding resolve
resolve_all stack [] = reverse stack
resolve_all stack (part ∷ parts) = resolve_all (resolve stack part) parts

unfoldable pub segments : Text → List Text
unfolding resolve_all split
segments s = resolve_all [] (split b'/' s)

unfoldable pub clean_rooted : Text → Text
unfolding segments join
clean_rooted s = codes "/" ++ join (codes "/") (segments s)
