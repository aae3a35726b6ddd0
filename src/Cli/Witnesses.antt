-- ===== src/Cli/Witnesses.antt =====
-- The properties of the command line at concrete inputs: a host with the image of the kernel's
-- demonstration and an empty file beside it.
use the_heap.Prelude.{
  ◌≡◌, ◌≢◌, ◌≤◌, refl, ap, sym, ◌∙◌, arith, Bool, true, false, Option, none, some, List, [], ◌∷◌,
  ◌++◌, ◌⊎◌, inl, inr, list_eq, list_eq_refl, if◌then◌else◌,
}
use the_heap.Fat32.Error.{ok}
use the_heap.Fat32.Text.{Text, ascii, root_path, slash}
use the_heap.Fat32.Volume.{Volume, Disk, BpbParams, new, fat_start_byte}
use the_heap.Fat32.Text.{split_parent, encode_short_name_8_3}
use the_heap.Fat32.Volume.{
  follow_chain, read_fat_entry, cluster_to_offset, data_start_byte, cluster_size,
}
use the_heap.Fat32.Read.{full_chunks}
use the_heap.Fat32.Write.{write_file_by_path}
use the_heap.Fat32.Error.{ok_inj}
use the_heap.Kernel.Image.{build_test_image}
use the_heap.Cli.Path.{resolve_path}
use the_heap.Cli.Path.Canonical.{root-IsCanonical, resolve_path-resolve_path}
use the_heap.Cli.Host.{HostFs, Output, put_ok}
use the_heap.Cli.Shell.{Session, Reply, go_on, leave, crash, put, run_line, shell_loop}
use the_heap.Cli.Words.{trim, split_whitespace}
use the_heap.Cli.Shell.Safe.{IsRoomy}
use the_heap.Cli.Shell.Loop.{EndsWell, shell_loop-EndsWell}
use the_heap.Cli.Shell.Directory.{Moved, ReadsOnly, run_line-Moved, run_line-ReadsOnly}
use the_heap.Cli.Shell.Saved.{KeepsFiles, SavedAs, put-SavedAs}
use the_heap.Cli.Main.{returned, main}
use the_heap.Cli.Main.Exits.{AreRoomy, main-returned}
use mathlib.Core.Path.{subst}

-- Files by name. A missing one has no other error.
abbrev Files : Type 0
Files = Text → Option Disk

abbrev as_read : Option Disk → Unit {0} ⊎ Disk
as_read none = inl tt
as_read (some d) = inr d

abbrev stored : Files → Text → Disk → Files
stored w path d q = if list_eq q path then some d else w q

abbrev host : HostFs
host = record {
  World = Files;
  IoError = Unit;
  read = λ w path. as_read (w path);
  write = λ w path d. (stored w path d, none);
}

host-KeepsFiles : KeepsFiles host
host-KeepsFiles w path d u e =
    let same : stored w path d ≡ u = ap (λ r. r.0) e in
    subst (λ (x : Files). as_read (x path) ≡ inr d) same (rw (list_eq_refl path) refl)

image_name : Text
image_name = ascii "d.img"

source_name : Text
source_name = ascii "e.txt"

files : Files
files path = if list_eq path image_name then some build_test_image else none

params : BpbParams
params = record {
  bytes_per_sector = 512;
  sectors_per_cluster = 1;
  reserved_sectors = 1;
  num_fats = 1;
  sectors_per_fat = 1;
  root_cluster = 2;
}

image_mounts : new build_test_image ≡ ok (record { disk = build_test_image; bpb = params })
unfolding new build_test_image params
image_mounts = refl

image-IsRoomy : IsRoomy build_test_image
unfolding fat_start_byte params
image-IsRoomy v e =
    let same : record { disk = build_test_image; bpb = params } ≡ v =
      ok_inj (sym image_mounts ∙ e) in
    subst (λ (x : Volume). 512 ≤ fat_start_byte x.bpb) same (omega arith)

session : Session Files
session = record { current_dir = root_path; image = build_test_image; world = files }

lines : List Text
lines = ascii "ls" ∷ ascii "cd DIR" ∷ ascii "put E.TXT d.img" ∷ ascii "  " ∷ ascii "pwd" ∷ []

shell_loop-EndsWell_example : EndsWell host session (shell_loop host image_name lines session)
unfolding session
shell_loop-EndsWell_example =
    shell_loop-EndsWell host image_name lines session image-IsRoomy root-IsCanonical

run_line-Moved_example : Moved host session (run_line host image_name (ascii "cd DIR") session)
run_line-Moved_example = run_line-Moved host image_name (ascii "cd DIR") session

ls_is_not_put :
    (cmd : Text) (parts : List Text)
    → split_whitespace (trim (ascii "ls DIR")) ≡ cmd ∷ parts
    → cmd ≢ ascii "put"
unfolding split_whitespace trim
ls_is_not_put cmd parts e v =
    let q : ascii "ls" ≡ cmd = cc in
    let u : list_eq (ascii "ls") (ascii "put") ≡ true = ap (λ c. list_eq c (ascii "put")) (q ∙ v) in
    cc

run_line-ReadsOnly_example :
    ReadsOnly host session (run_line host image_name (ascii "ls DIR") session)
run_line-ReadsOnly_example =
    run_line-ReadsOnly host image_name (ascii "ls DIR") session ls_is_not_put

resolve_path-resolve_path_example :
    resolve_path (resolve_path (ascii "/A") (ascii "../B/.")) (ascii "C")
    ≡ resolve_path (ascii "/A") (ascii "../B/." ++ slash ∷ ascii "C")
resolve_path-resolve_path_example =
    resolve_path-resolve_path (ascii "/A") (ascii "../B/.") (ascii "C") refl refl

read-IsRoomy :
    (named : Bool) (d : Disk)
    → as_read (if named then some build_test_image else none) ≡ inr d
    → IsRoomy d
read-IsRoomy true d e = let q : build_test_image ≡ d = cc in subst IsRoomy q image-IsRoomy
read-IsRoomy false d e = cc

files-AreRoomy : AreRoomy host files
unfolding files
files-AreRoomy path d e = read-IsRoomy (list_eq path image_name) d e

args : List Text
args = ascii "--file" ∷ ascii "d.img" ∷ ascii "--put" ∷ ascii "/E.TXT" ∷ ascii "d.img" ∷ []

main-returned_example :
    (u : Files) × (out : List (Output (Unit {0}))) × (main host args [] files
      ≡ some (returned u out))
main-returned_example = main-returned host args [] files files-AreRoomy

-- An empty file is written.
with_source : Session Files
with_source = record {
  current_dir = root_path;
  image = build_test_image;
  world = stored files source_name (record { len = 0; byte = λ a. 0 });
}

put_reply : Reply Files (Unit {0})
put_reply = put host image_name (ascii "/E.TXT") source_name with_source

after_reply : Reply Files (Unit {0}) → Session Files
after_reply (go_on t out) = t
after_reply leave = with_source
after_reply (crash t) = t

put_reported :
    put host image_name (ascii "/E.TXT") source_name with_source
    ≡ go_on (after_reply put_reply) (put_ok source_name (ascii "/E.TXT") ∷ [])
unfolding after_reply put_reply put with_source files build_test_image image_name source_name new
    write_file_by_path split_parent encode_short_name_8_3 follow_chain read_fat_entry fat_start_byte
    cluster_to_offset data_start_byte cluster_size full_chunks
put_reported = refl

put-SavedAs_example :
    SavedAs host host-KeepsFiles image_name
      (ascii "/E.TXT")
      source_name
      with_source
      (after_reply put_reply)
put-SavedAs_example =
    put-SavedAs host host-KeepsFiles with_source (after_reply put_reply) image_name (ascii "/E.TXT")
      source_name source_name (ascii "/E.TXT") put_reported
