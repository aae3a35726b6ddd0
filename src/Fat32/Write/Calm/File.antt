-- ===== src/Fat32/Write/Calm/File.antt =====
-- `write_file_by_path` of fat32/src/lib.rs: on every path and content it returns, and the image
-- stays an image.
use the_heap.Prelude.{
  Bool-cases, ◌-◌, false, ℕ, ◌<◌, ◌≡◌, arith, List, [], ◌∷◌, length, inl, inr, Option, none, some,
  leb, ◌==◌, ◌||◌, not, is_empty, list_eq, ap, ◌∙◌, ◌%◌, ◌^◌, if◌then◌else◌, ◌≤◌, ◌⊎◌, refl, sym,
}
use the_heap.Fat32.DirEntry.{DirEntry, is_dir}
use the_heap.Fat32.Error.{ok, not_a_file, no_space_left, FatError, err}
use the_heap.Fat32.Text.{Text, split_parent, encode_short_name_8_3, slash, root_path, starts_with}
use the_heap.Fat32.Volume.{Volume, cluster_size, max_cluster_number, Disk, new, fat_start_byte}
use the_heap.Fat32.Write.{
  release_existing, free_chain, store_content, alloc_chain, write_chain_data, first_of_chain,
  div_ceil, parent_cluster, find_dir_entry_offset_by_short_name, write_file_by_path, link_chain,
  find_free,
}
use the_heap.Fat32.Write.Effect.{
  done, Cmd, pure, fail, ◌>>◌, reading, and_then-done, Run, failed, panicked,
}
use the_heap.Fat32.Write.Calm.{
  Keeps-refl, Calm, IsCalm, and_then-Calm, >>=-IsCalm, if-IsCalm, Keeps,
}
use the_heap.Fat32.Write.Calm.Table.{
  free_chain-IsCalm, alloc_chain-IsCalm, write_chain_data-IsCalm, fat_start-le,
}
use the_heap.Fat32.Write.Calm.Directory.{put_entry-Calm, find_dir_entry_offset_by_short_name-le}
use the_heap.Fat32.Write.Plan.{Target, target, commit, write_file_by_path-target}
use the_heap.Fat32.Error
use the_heap.Fat32.Error.{Result, >>=-ok, panic, NoPanic}
use the_heap.Fat32.Write.Safe.{
  split_parent-NoPanic, encode_short_name_8_3-NoPanic, parent_cluster-NoPanic,
  find_dir_entry_offset_by_short_name-NoPanic,
}
use the_heap.Fat32.Write.Effect.{after, and_then}
use the_heap.Fat32.Volume.{data_start_byte}
use the_heap.Fat32.Write.Store.{div_ceil-bounds}
use the_heap.Fat32.Write.Content.{is_empty-length}
use the_heap.Fat32.Volume.Accept.{
  fields-new, fields_ext, new-fields, Usable-cluster_size, fields, Usable,
}
use mathlib.Core.Path.{subst}

pub release_existing-IsCalm : (e : Option DirEntry) → IsCalm (release_existing e)
unfolding release_existing
release_existing-IsCalm none = Keeps-refl
release_existing-IsCalm (some e) = if-IsCalm (is_dir e) (fail not_a_file) _ Keeps-refl (
    if-IsCalm (leb 2 e.first_cluster) (free_chain e.first_cluster) (pure tt)
      (free_chain-IsCalm e.first_cluster) Keeps-refl)

-- The tail of `alloc_chain`, behind the scan.
abbrev take_found : ℕ → List ℕ → Cmd (List ℕ)
take_found needed found =
    if not (length found == needed) then fail no_space_left else (link_chain found >> pure found)

take_found-length :
    (needed : ℕ) (found cs : List ℕ) (v w : Volume)
    → take_found needed found v ≡ done cs w
    → length cs ≡ needed
take_found-length needed found cs v w h = elim (Bool-cases (length found == needed)) [
  | inl enough ↦
      let q = rw enough at h in
      let (a, u, e, z) = and_then-done (link_chain found v) (λ _. pure found) q in
      let same : found ≡ cs = cc in rw (← same) (ground arith)
  | inr few ↦ let q = rw few at h in cc
]

alloc_chain-length :
    (needed : ℕ) (v w : Volume) (cs : List ℕ)
    → 0 < needed
    → alloc_chain needed v ≡ done cs w
    → length cs ≡ needed
unfolding alloc_chain
alloc_chain-length needed v w cs pos h =
    let some_needed : (needed == 0) ≡ false = ground arith in
    let (max_cl, u, e, q) = and_then-done (reading max_cluster_number v) _ (rw some_needed at h) in
    let (found, x, f, z) =
      and_then-done (reading (λ v. find_free v (max_cl - 1) 2 needed) u) (take_found needed) q in
    take_found-length needed found cs x w z

first_of_chain-IsCalm : (cs : List ℕ) → 0 < length cs → IsCalm (first_of_chain cs)
unfolding first_of_chain
first_of_chain-IsCalm [] pos = absurd (omega arith)
first_of_chain-IsCalm (c ∷ cs) pos = Keeps-refl

fill_chain-IsCalm :
    (content cs : List ℕ)
    → 0 < length cs
    → IsCalm (write_chain_data cs content >> first_of_chain cs)
fill_chain-IsCalm content cs pos =
    >>=-IsCalm (write_chain_data cs content) (λ _. first_of_chain cs)
      (write_chain_data-IsCalm cs content) (λ _. first_of_chain-IsCalm cs pos)

store_content-Calm :
    (content : List ℕ) (v : Volume) → 0 < cluster_size v.bpb → Calm v (store_content content v)
unfolding store_content
store_content-Calm content v pos = elim (Bool-cases (is_empty content)) [
  | inl no_content ↦ rw no_content (Keeps-refl v)
  | inr content_left ↦
      let needed = div_ceil (length content) (cluster_size v.bpb) in
      let enough =
        div_ceil-bounds (length content) (cluster_size v.bpb)
          (ground (arith, is_empty-length content)) pos in
      rw content_left (
        and_then-Calm v (alloc_chain needed v) _ (alloc_chain-IsCalm needed v) (λ cs w e keeps.
          fill_chain-IsCalm content cs
            (omega (arith, alloc_chain-length needed v w cs enough.0 e, enough.0)) w))
]

commit-Calm :
    (content : List ℕ) (t : Target) (v : Volume)
    → 0 < cluster_size v.bpb
    → ((o : ℕ) → t.off ≡ some o → data_start_byte v.bpb ≤ o)
    → Calm v (commit content t v)
commit-Calm content t v pos behind =
    and_then-Calm v (release_existing t.entry v) _ (release_existing-IsCalm t.entry v)
      (λ _ w e keeps.
        and_then-Calm w (store_content content w) _ (store_content-Calm content w (rw keeps.1 pos))
          (λ first x q keeps'.
            put_entry-Calm t.dir t.off t.name.0 t.name.1 first (length content % 2 ^ 32) x (λ o z.
              let le = behind o z in
              let fats = fat_start-le v in rw (keeps'.1, keeps.1) (omega arith))))

-- The offset of an entry that the searches found lies behind the FATs.
target-le :
    (path : Text) (v : Volume) (t : Target) (o : ℕ)
    → target path v ≡ ok t
    → t.off ≡ some o
    → data_start_byte v.bpb ≤ o
target-le path v t o h z =
    let (parts, s, q) = >>=-ok (split_parent path) _ h in
    let (name, n, q') = >>=-ok (encode_short_name_8_3 parts.1) _ q in
    let (dir, d, q'') = >>=-ok (parent_cluster v parts.0) _ q' in
    let (found, f, last) = >>=-ok (find_dir_entry_offset_by_short_name v dir name.0 name.1) _ q'' in
    let made : record { dir = dir; name = name; off = found.0; entry = found.1 } ≡ t = cc in
    find_dir_entry_offset_by_short_name-le v dir name.0 name.1 o found.1
      (f ∙ ap (λ p. ok (p, found.1)) (ap (λ x. x.off) made ∙ z))

-- The searches come back.
target-NoPanic : (path : Text) (v : Volume) → NoPanic (target path v)
target-NoPanic path v =
    Error.>>=-NoPanic (split_parent path) _ (split_parent-NoPanic path) (λ parts.
      Error.>>=-NoPanic (encode_short_name_8_3 parts.1) _ (encode_short_name_8_3-NoPanic parts.1)
        (λ name.
          Error.>>=-NoPanic (parent_cluster v parts.0) _ (parent_cluster-NoPanic v parts.0) (λ dir.
            Error.>>=-NoPanic (find_dir_entry_offset_by_short_name v dir name.0 name.1) _
              (find_dir_entry_offset_by_short_name-NoPanic v dir name.0 name.1) (λ found. tt))))

planned-Calm :
    (path : Text) (content : List ℕ) (v : Volume) (r : Result Target)
    → target path v ≡ r
    → 0 < cluster_size v.bpb
    → Calm v (and_then (after r v) (commit content))
planned-Calm path content v (ok t) h pos = commit-Calm content t v pos (λ o. target-le path v t o h)
planned-Calm path content v (err e) h pos = Keeps-refl v
planned-Calm path content v panic h pos = subst NoPanic h (target-NoPanic path v)

write_file_by_path-Calm :
    (path : Text) (content : List ℕ) (v : Volume)
    → 0 < cluster_size v.bpb
    → Calm v (write_file_by_path path content v)
unfolding write_file_by_path
write_file_by_path-Calm path content v pos =
    elim (Bool-cases (not (starts_with path slash) || list_eq path root_path)) [
      | inl bad ↦ rw bad (Keeps-refl v)
      | inr good ↦
          subst (Calm v)
            (sym (write_file_by_path-target path content v (ground arith, ground arith)))
            (planned-Calm path content v (target path v) refl pos)
    ]

-- The volume is what `new` gives on its own buffer, with the old length and parameters.
pub record Readable (v w : Volume) : Type 0 where
  pub mounts : new w.disk ≡ ok w
  pub len : w.disk.len ≡ v.disk.len
  pub bpb : w.bpb ≡ v.bpb

Keeps-Readable :
    (d : Disk) (v w : Volume) → new d ≡ ok v → 512 ≤ fat_start_byte v.bpb → Keeps v w → Readable v w
Keeps-Readable d v w h room k =
    let (disk, bpb, usable) = fields-new d v h in
    let same = fields_ext d w.disk (λ a lt. k.2 a (omega arith) ∙ ap (λ x. x.byte a) disk) in
    record {
      mounts =
          new-fields w.disk (
            subst (Usable w.disk) (sym same) (record {
              boot_sector = rw (k.0, disk) usable.boot_sector;
              sector = usable.sector;
              cluster = usable.cluster;
              fats = usable.fats;
              fat = usable.fat;
            }))
          ∙ ap (λ p. ok (record { disk = w.disk; bpb = p })) (same ∙ sym bpb ∙ sym k.1);
      len = k.0;
      bpb = k.1;
    }

Calm-Readable :
    (d : Disk) (v : Volume) (r : Run (Unit {0}))
    → new d ≡ ok v
    → 512 ≤ fat_start_byte v.bpb
    → Calm v r
    → ((w : Volume) × (r ≡ done tt w) × Readable v w)
      ⊎ ((e : FatError) × (w : Volume) × (r ≡ failed e w) × Readable v w)
Calm-Readable d v (done _ w) h room c = inl (w, refl, Keeps-Readable d v w h room c)
Calm-Readable d v (failed e w) h room c = inr (e, w, refl, Keeps-Readable d v w h room c)
Calm-Readable d v (panicked w) h room c = absurd c

-- On a volume that `new` gave and whose reserved sectors hold 512 bytes or more, for every path
-- and every content: `write_file_by_path` returns, with success or with an error and with no panic
-- of a range of the buffer or of an index into a chain, and the buffer that it leaves has the length from before and still mounts, with the same parameters.
pub write_file_by_path-Readable :
    (d : Disk) (v : Volume) (path : Text) (content : List ℕ)
    → new d ≡ ok v
    → 512 ≤ fat_start_byte v.bpb
    → ((w : Volume) × (write_file_by_path path content v ≡ done tt w) × Readable v w)
      ⊎ ((e : FatError) × (w : Volume) × (write_file_by_path path content v ≡ failed e w)
          × Readable v w)
write_file_by_path-Readable d v path content h room =
    Calm-Readable d v (write_file_by_path path content v) h room (
      write_file_by_path-Calm path content v
        (let u = fields-new d v h in rw u.1 (Usable-cluster_size d (fields d) u.2)))
