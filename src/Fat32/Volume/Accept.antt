-- ===== src/Fat32/Volume/Accept.antt =====
-- What `parse_bpb` of fat32/src/lib.rs accepts.
use the_heap.Prelude.{
  refl, Bool-cases, ltb, ◌==◌, ◌||◌, inl, inr, arith, ◌≤◌, ◌<◌, ◌≡◌, arith, ◌⊎◌, Bool-cases, ℕ, ◌*◌,
  ap, sym, false,
}
use the_heap.Fat32.Error.{ok, err, buffer_too_small, not_fat32}
use the_heap.Fat32.Volume.{
  Disk, BpbParams, parse_bpb, new, from_le_bytes, cluster_size, fat_bytes_len, ℕ, Volume,
}
use the_heap.Bytes.{from_le_bytes, slice}
use the_heap.Bytes.Region.{slice_ext}

-- The parameters that no volume can do without.
pub record Usable (d : Disk) (p : BpbParams) : Type 0 where
  pub boot_sector : 512 ≤ d.len
  pub sector : 0 < p.bytes_per_sector
  pub cluster : 0 < p.sectors_per_cluster
  pub fats : 0 < p.num_fats
  pub fat : 0 < p.sectors_per_fat

-- The fields of the boot sector, at their offsets in the FAT32 layout.
abbrev pub fields : Disk → BpbParams
fields d = record {
  bytes_per_sector = from_le_bytes (slice d.byte 0x0B 2);
  sectors_per_cluster = d.byte 0x0D;
  reserved_sectors = from_le_bytes (slice d.byte 0x0E 2);
  num_fats = d.byte 0x10;
  sectors_per_fat = from_le_bytes (slice d.byte 0x24 4);
  root_cluster = from_le_bytes (slice d.byte 0x2C 4);
}

mul_pos : (a b : ℕ) → 0 < a → 0 < b → 0 < a * b
mul_pos a b pa pb = grind arith

pub Usable-cluster_size : (d : Disk) (p : BpbParams) → Usable d p → 0 < cluster_size p
unfolding cluster_size
Usable-cluster_size d p u = mul_pos p.bytes_per_sector p.sectors_per_cluster u.sector u.cluster

-- For every buffer: under 512 bytes `new` fails with `BufferTooSmall`; else, where one of the
-- four parameters that no volume can do without is zero, with `NotFat32`; else it gives the
-- volume with the fields of the boot sector, and its clusters and FATs are not empty.
pub new-Usable :
    (d : Disk)
    → ((d.len < 512) × (new d ≡ err buffer_too_small))
      ⊎ (((512 ≤ d.len) × (¬ Usable d (fields d)) × (new d ≡ err not_fat32))
          ⊎ (Usable d (fields d)
              × (new d ≡ ok (record { disk = d; bpb = fields d }))
              × (0 < cluster_size (fields d))
              × (0 < fat_bytes_len (fields d))))
unfolding new parse_bpb cluster_size fat_bytes_len
new-Usable d =
    let p = fields d in
    elim (Bool-cases (ltb d.len 512)) [
      | inl short ↦ inl (ground arith, rw short refl)
      | inr long ↦
          let enough : ltb d.len 48 ≡ false = ground arith in
          elim (Bool-cases
            ((p.bytes_per_sector == 0) || ((p.sectors_per_cluster == 0) || (p.num_fats == 0)))) [
              | inl zero ↦ inr (
                  inl (
                    ground arith,
                    λ u. ground (arith, u.sector, u.cluster, u.fats),
                    rw (long, enough, zero) refl,
                  ))
              | inr some ↦ elim (Bool-cases (p.sectors_per_fat == 0)) [
                | inl zero ↦ inr (
                    inl (
                      ground arith,
                      λ u. ground (arith, u.fat),
                      rw (long, enough, some, zero) refl,
                    ))
                | inr fat ↦ inr (
                    inr (
                      record {
                        boot_sector = ground arith;
                        sector = ground arith;
                        cluster = ground arith;
                        fats = ground arith;
                        fat = ground arith;
                      },
                      rw (long, enough, some, fat) refl,
                      mul_pos p.bytes_per_sector p.sectors_per_cluster (ground arith)
                          (ground arith),
                      mul_pos p.sectors_per_fat p.bytes_per_sector (ground arith) (ground arith),
                    ))
              ]
            ]
    ]

pub new-fields : (d : Disk) → Usable d (fields d) → new d ≡ ok (record { disk = d; bpb = fields d })
new-fields d u = elim (new-Usable d) [
  | inl (short, e) ↦ absurd (omega (arith, u.boot_sector))
  | inr (inl (long, unusable, e)) ↦ absurd (unusable u)
  | inr (inr (usable, e, c, f)) ↦ e
]

pub fields-new :
    (d : Disk) (v : Volume) → new d ≡ ok v → (v.disk ≡ d) × (v.bpb ≡ fields d) × Usable d (fields d)
fields-new d v h = elim (new-Usable d) [
  | inl (short, e) ↦ cc
  | inr (inl (long, unusable, e)) ↦ cc
  | inr (inr (usable, e, c, f)) ↦
      let same : record { disk = d; bpb = fields d } ≡ v = cc in
      (ap (λ x. x.disk) (sym same), ap (λ x. x.bpb) (sym same), usable)
]

-- The first 512 bytes decide the fields.
pub fields_ext : (d e : Disk) → ((a : ℕ) → a < 512 → e.byte a ≡ d.byte a) → fields e ≡ fields d
fields_ext d e same =
    rw
      (
        slice_ext e.byte d.byte 0x0B 2 (λ a lo hi. same a (omega arith)),
        slice_ext e.byte d.byte 0x0E 2 (λ a lo hi. same a (omega arith)),
        slice_ext e.byte d.byte 0x24 4 (λ a lo hi. same a (omega arith)),
        slice_ext e.byte d.byte 0x2C 4 (λ a lo hi. same a (omega arith)),
        same 0x0D (omega arith),
        same 0x10 (omega arith),
      )
      refl
