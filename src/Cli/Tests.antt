-- ===== src/Cli/Tests.antt =====
-- The unit tests of fat32/src/main.rs, each with its assertion as a Boolean, and their runs.
use the_heap.Prelude.{◌≡◌, refl, Bool, true, list_eq}
use the_heap.Fat32.Text.{ascii}
use the_heap.Cli.Path.{resolve_path}

chemin_parent_depuis_dir : Bool
unfolding resolve_path
chemin_parent_depuis_dir = list_eq (resolve_path (ascii "/DIR") (ascii "..")) (ascii "/")

chemin_courant_point_file : Bool
unfolding resolve_path
chemin_courant_point_file =
    list_eq (resolve_path (ascii "/DIR") (ascii "./FILE.TXT")) (ascii "/DIR/FILE.TXT")

chemin_absolu_ignore_courant : Bool
unfolding resolve_path
chemin_absolu_ignore_courant =
    list_eq (resolve_path (ascii "/DIR") (ascii "/AUTRE/XX")) (ascii "/AUTRE/XX")

-- Every one passes.
unit_tests :
    (chemin_parent_depuis_dir ≡ true)
    × (chemin_courant_point_file ≡ true)
    × (chemin_absolu_ignore_courant ≡ true)
unfolding chemin_parent_depuis_dir chemin_courant_point_file chemin_absolu_ignore_courant
unit_tests = (refl, refl, refl)
