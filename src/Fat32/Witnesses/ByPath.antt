-- ===== src/Fat32/Witnesses/ByPath.antt =====
-- A new file in the image of the kernel's demonstration, written and read by its path.
use the_heap.Prelude.{
  ℕ, ◌≡◌, ◌≢◌, refl, sym, ◌∙◌, arith, inr, true, Bool, Option, none, some, List, [], ◌∷◌, ◌||◌,
  ◌&&◌, not, All, list_eq, ◌-◌,
}
use the_heap.Bytes.{Memory, slice, from_le_bytes}
use the_heap.Fat32.DirEntry.{DirEntry, parse}
use the_heap.Fat32.Error.{ok, err, no_space_left}
use the_heap.Fat32.Read.{read_file_by_path, full_chunks}
use the_heap.Fat32.Text.{
  Text, ascii, slash, encode_short_name_8_3, normalize_name, trim_end_matches, split_extension,
}
use the_heap.Fat32.Volume.{
  cluster_size, data_start_byte, fat_bytes_len, fat_start_byte, follow_chain, read_fat_entry,
  cluster_to_offset,
}
use the_heap.Fat32.Write.{
  write_file_by_path, with_bytes, div_ceil, find_dir_entry_offset_by_short_name,
  find_free_dir_entry_slot,
}
use the_heap.Fat32.Write.ByPath.{write_file_by_path-read_file_by_path}
use the_heap.Fat32.Write.Effect.{done}
use the_heap.Fat32.Write.Find.{count_free}
use the_heap.Fat32.Write.Listing.{Answers, Canonical}
use the_heap.Fat32.Write.Listing.Written.{CanonicalDirectory}
use the_heap.Fat32.Write.Lookup.{matches, pieces}
use the_heap.Fat32.Write.Replace.{IsRawName}
use the_heap.Fat32.Witnesses.{image, image_bpb, image_max, root-IsDirectory}
use the_heap.Kernel.Image.{build_test_image}

abbrev raw : List ℕ
raw = ascii "NEW     "

abbrev raw_ext : List ℕ
raw_ext = ascii "TXT"

abbrev entry_clear : Text → List ℕ → List ℕ → List ℕ → Option DirEntry → Bool
entry_clear target n e c none = true
entry_clear target n e c (some d) = not (list_eq (normalize_name d.name) target) || matches n e c

-- A decision of `Canonical`.
entry_clear-Canonical :
    (target : Text) (n e c : List ℕ) (o : Option DirEntry) (d : DirEntry)
    → entry_clear target n e c o ≡ true
    → o ≡ some d
    → Answers target d
    → matches n e c ≡ true
entry_clear-Canonical target n e c none d h q a = cc
entry_clear-Canonical target n e c (some p) d h q a =
    let same : p ≡ d = cc in
    let hit : list_eq (normalize_name p.name) target ≡ true = rw (← same) at a in
    ground (arith, h, hit)

all_clear : Text → List ℕ → List ℕ → List (List ℕ) → Bool
all_clear target n e [] = true
all_clear target n e (c ∷ cs) = entry_clear target n e c (parse c) && all_clear target n e cs

and-both : (a b : Bool) → (a && b) ≡ true → (a ≡ true) × (b ≡ true)
and-both a b h = (ground arith, ground arith)

all_clear-Canonical :
    (target : Text) (n e : List ℕ) (cs : List (List ℕ))
    → all_clear target n e cs ≡ true
    → All (Canonical n e target) cs
unfolding all_clear
all_clear-Canonical target n e [] h = tt
all_clear-Canonical target n e (c ∷ cs) h =
    let both = and-both (entry_clear target n e c (parse c)) (all_clear target n e cs) h in
    (
      λ d q a. entry_clear-Canonical target n e c (parse c) d both.0 q a,
      all_clear-Canonical target n e cs both.1,
    )

root_clear :
    all_clear (normalize_name (ascii "NEW.TXT")) raw raw_ext (pieces 16 image.disk.byte 1024) ≡ true
unfolding all_clear image image_bpb build_test_image parse normalize_name pieces slice from_le_bytes
root_clear = refl

root-CanonicalDirectory :
    CanonicalDirectory image (2 ∷ []) raw raw_ext (normalize_name (ascii "NEW.TXT"))
unfolding image image_bpb cluster_size data_start_byte
root-CanonicalDirectory = (all_clear-Canonical _ raw raw_ext _ root_clear, tt)

new-IsRawName : IsRawName raw raw_ext
new-IsRawName = record {
  name = refl;
  ext = refl;
  used = λ e. absurd (omega (arith, e));
  kept = λ e. absurd (omega (arith, e));
}

new_encoded : encode_short_name_8_3 (ascii "NEW.TXT") ≡ ok (raw, raw_ext)
unfolding encode_short_name_8_3
new_encoded = refl

new_place : find_dir_entry_offset_by_short_name image 2 raw raw_ext ≡ ok (none, none)
unfolding image image_bpb build_test_image find_dir_entry_offset_by_short_name follow_chain
    read_fat_entry fat_start_byte from_le_bytes slice cluster_to_offset data_start_byte cluster_size
    full_chunks
new_place = refl

new_slot : find_free_dir_entry_slot image 2 ≡ ok (1088, true, 1536)
unfolding image image_bpb build_test_image find_free_dir_entry_slot follow_chain read_fat_entry
    fat_start_byte from_le_bytes slice cluster_to_offset data_start_byte cluster_size full_chunks
new_slot = refl

some_slot : find_free_dir_entry_slot image 2 ≢ err no_space_left
some_slot e = let z = sym new_slot ∙ e in cc

five_free : count_free image (9 - 1) 2 ≡ 5
unfolding image image_bpb build_test_image count_free from_le_bytes slice fat_start_byte
five_free = refl

write_file_by_path-read_file_by_path_example :
    (m : Memory) × (write_file_by_path (slash ∷ ascii "NEW.TXT") (ascii "NEW!") image
      ≡ done tt (with_bytes image m))
    × (read_file_by_path (with_bytes image m) (slash ∷ ascii "NEW.TXT") ≡ ok (some (ascii "NEW!")))
unfolding image image_bpb build_test_image fat_bytes_len cluster_size div_ceil split_extension
    trim_end_matches
write_file_by_path-read_file_by_path_example =
    write_file_by_path-read_file_by_path image 9 (ascii "NEW.TXT") raw raw_ext (ascii "NEW!")
      (2 ∷ []) [] none none (omega arith) (omega arith) image_max ((refl, refl), refl, refl, refl)
      new_encoded new-IsRawName root-IsDirectory root-CanonicalDirectory new_place refl (tt, tt)
      (omega arith) (omega arith) (omega (arith, five_free)) (inr some_slot)
