-- ===== src/Inode/Attr.antt =====
-- The attribute byte of a directory entry survives its way through the mode of the inode:
-- `fat_make_mode`, `fat_save_attrs` and `fat_make_attrs` of ATS/myfat/fat_inode.h.
use ats_ldd.Base.{
  ℕ, ◌≤◌, ◌≡◌, ◌≢◌, ℕ_discrete, inl, inr, refl, sym, ap, ◌∙◌, true, false, not, ◌&&◌, if◌then◌else◌,
  ltb, arith, Bool-cases,
}
use ats_ldd.Inode.{
  Bits, Options, ro_bit, dir_bit, attr_unused, s_iwugo, s_ifdir, s_ifreg, any_write, s_isdir,
  bits_not, fat_make_mode, fat_mode_can_hold_ro, fat_save_attrs, fat_make_attrs,
}

-- A mode that grants all to write and has no format bits, as `fat_read_root` and `fat_fill_inode`
-- pass it.
pub record AllWrite (mode : Bits) : Type 0 where
  pub user : mode 7 ≡ true
  pub group : mode 4 ≡ true
  pub other : mode 1 ≡ true
  pub plain : (i : ℕ) → 12 ≤ i → mode i ≡ false

isdir_lem :
    (o : Options) (attrs mode : Bits)
    → AllWrite mode
    → s_isdir (fat_make_mode o attrs mode) ≡ attrs dir_bit
unfolding s_isdir fat_make_mode s_ifdir s_ifreg s_iwugo
isdir_lem o attrs mode w =
    let p12 = w.plain 12 (omega arith) in
    let p13 = w.plain 13 (omega arith) in
    let p14 = w.plain 14 (omega arith) in let p15 = w.plain 15 (omega arith) in ground arith

hold_lem :
    (o : Options) (attrs mode : Bits)
    → AllWrite mode
    → fat_mode_can_hold_ro o (fat_make_mode o attrs mode) ≡ (
        if attrs dir_bit
        then (if not o.rodir then false else any_write (bits_not o.fs_dmask))
        else any_write (bits_not o.fs_fmask))
unfolding fat_mode_can_hold_ro
hold_lem o attrs mode w = rw (isdir_lem o attrs mode w) refl

-- Where the mode can hold the attribute, it does.
write_lem :
    (o : Options) (attrs mode : Bits)
    → AllWrite mode
    → fat_mode_can_hold_ro o (fat_make_mode o attrs mode) ≡ true
    → any_write (fat_make_mode o attrs mode) ≡ not (attrs ro_bit)
unfolding any_write fat_make_mode s_iwugo s_ifdir s_ifreg
write_lem o attrs mode w h = let hold = sym (hold_lem o attrs mode w) ∙ h in ground arith

-- The parts of the byte.
unused_lem :
    (attrs : Bits) (i : ℕ) → i ≢ 0 → i ≢ 4 → (attrs i && attr_unused i) ≡ (attrs i && ltb i 6)
unfolding attr_unused
unused_lem attrs i a b = ground arith

-- For every attribute byte and all mount options: the attributes that `fat_make_attrs` gives for
-- the mode that `fat_make_mode` made and the attributes that `fat_save_attrs` saved are those of
-- the byte, up to its two highest bits, which are dropped.
pub fat_make_attrs-fat_make_mode :
    (o : Options) (attrs mode : Bits) (i : ℕ)
    → AllWrite mode
    → (let m = fat_make_mode o attrs mode in
        fat_make_attrs o m (fat_save_attrs o m attrs) i ≡ (attrs i && ltb i 6))
unfolding fat_make_attrs fat_save_attrs attr_unused
fat_make_attrs-fat_make_mode o attrs mode i w =
    let d = isdir_lem o attrs mode w in
    let m : Bits = fat_make_mode o attrs mode in
    let at : (k : ℕ) → i ≡ k → attrs i ≡ attrs k = λ k e. ap attrs e in
    elim (Bool-cases (fat_mode_can_hold_ro o m)) [
      | inl y ↦
          let written = write_lem o attrs mode w y in
          elim (ℕ_discrete i 0) [
            | yes z ↦ let a0 = at 0 z in ground arith
            | no nz ↦ elim (ℕ_discrete i 4) [
              | yes f ↦ let a4 = at 4 f in ground arith
              | no nf ↦ let u = unused_lem attrs i nz nf in ground arith
            ]
          ]
      | inr y ↦ elim (ℕ_discrete i 0) [
        | yes z ↦ let a0 = at 0 z in ground arith
        | no nz ↦ elim (ℕ_discrete i 4) [
          | yes f ↦ let a4 = at 4 f in ground arith
          | no nf ↦ let u = unused_lem attrs i nz nf in ground arith
        ]
      ]
    ]
