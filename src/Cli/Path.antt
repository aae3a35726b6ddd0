-- ===== src/Cli/Path.antt =====
-- `resolve_path` and `push_component` of fat32/src/main.rs.
pub mod Canonical
use the_heap.Prelude.{ℕ, Bool, ◌&&◌, ◌||◌, List, [], ◌∷◌, ◌++◌, is_empty, list_eq, if◌then◌else◌}
use the_heap.Fat32.Text.{Text, slash, dot, root_path, starts_with, split}

abbrev pub parent_name : Text
parent_name = dot ∷ dot ∷ []

-- `components.pop()`.
unfoldable pub pop : List Text → List Text
pop [] = []
pop (c ∷ []) = []
pop (c ∷ d ∷ cs) = c ∷ pop (d ∷ cs)

unfoldable pub push_component : List Text → Text → List Text
unfolding pop
push_component components part =
    if is_empty part || list_eq part (dot ∷ [])
    then components
    else if list_eq part parent_name
    then pop components
    else components ++ part ∷ []

-- The loop over the parts of a path.
unfoldable pub push_components : List Text → List Text → List Text
unfolding push_component
push_components components [] = components
push_components components (part ∷ parts) = push_components (push_component components part) parts

-- `components.join("/")`.
unfoldable pub join : List Text → Text
join [] = []
join (c ∷ []) = c
join (c ∷ d ∷ cs) = c ++ slash ∷ join (d ∷ cs)

unfoldable pub components_of : Text → Text → List Text
unfolding push_components split
components_of current path =
    if starts_with path slash
    then push_components [] (split path slash)
    else push_components (push_components [] (split current slash)) (split path slash)

unfoldable pub render : List Text → Text
unfolding join
render components = if is_empty components then root_path else slash ∷ join components

unfoldable pub resolve_path : Text → Text → Text
unfolding components_of render
resolve_path current path = render (components_of current path)
