-- ===== src/Workspace/Listing.antt =====
-- listWorkspaceFiles (upload.go): the regular files that are not hidden, sorted by name. Sizes and
-- times of the entries are not modelled.
use filestor.Base.{
  Bool, true, false, ◌&&◌, ◌||◌, not, List, [], ◌∷◌, ltb, ◌==◌, if◌then◌else◌, Text, codes,
  has_prefix,
}
use filestor.Workspace.{Node}

-- a < b on texts
unfoldable pub text_lt : Text → Text → Bool
text_lt [] [] = false
text_lt [] (y ∷ b) = true
text_lt (x ∷ a) [] = false
text_lt (x ∷ a) (y ∷ b) = ltb x y || (x == y && text_lt a b)

-- sort.Slice by name
unfoldable pub insert_sorted : Text → List Text → List Text
insert_sorted n [] = n ∷ []
insert_sorted n (m ∷ ms) = if text_lt m n then m ∷ insert_sorted n ms else n ∷ m ∷ ms

unfoldable pub sort_names : List Text → List Text
sort_names [] = []
sort_names (n ∷ ns) = insert_sorted n (sort_names ns)

abbrev pub is_hidden : Text → Bool
is_hidden = has_prefix (codes ".")

-- the loop over the directory's entries
unfoldable pub visible : List (Text × Node) → List Text
visible [] = []
visible ((name, n) ∷ es) =
    let rest = visible es in if is_hidden name || not n.is_regular then rest else name ∷ rest

unfoldable pub list_workspace_files : List (Text × Node) → List Text
list_workspace_files root = sort_names (visible root)
