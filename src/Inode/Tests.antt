-- ===== src/Inode/Tests.antt =====
-- Runs of the attribute round trip and of a small inode table.
use ats_ldd.Base.{
  ℕ, ◌%◌, ◌≡◌, refl, true, false, ◌&&◌, ◌||◌, [], none, some, if◌then◌else◌, ◌==◌, ltb, arith, has,
}
use ats_ldd.Inode.{
  Bits, Options, InodeTable, s_irwxugo, fat_make_mode, fat_save_attrs, fat_make_attrs, fat_iget,
  fat_attach, fat_detach, find_grabbed,
}
use ats_ldd.Inode.Attr.{AllWrite, fat_make_attrs-fat_make_mode}
use ats_ldd.Inode.Find.{IsHashed, fat_iget-fat_attach, fat_iget-fat_detach}
use ats_ldd.Inode.Reached.{Reachable, empty, attached, Reachable-IsHashed}

-- The mask 022 for files and directories.
abbrev usual : Options
usual = record {
  fs_fmask = λ i. (i == 4) || (i == 1);
  fs_dmask = λ i. (i == 4) || (i == 1);
  rodir = false;
}

-- Read-only, hidden and archive.
abbrev some_attrs : Bits
some_attrs i = (i == 0) || ((i == 1) || (i == 5))

s_irwxugo-AllWrite : AllWrite s_irwxugo
unfolding s_irwxugo
s_irwxugo-AllWrite = record { user = refl; group = refl; other = refl; plain = λ i h. ground arith }

fat_make_attrs-fat_make_mode_example :
    (let m = fat_make_mode usual some_attrs s_irwxugo in
      fat_make_attrs usual m (fat_save_attrs usual m some_attrs) 5 ≡ (some_attrs 5 && ltb 5 6))
fat_make_attrs-fat_make_mode_example =
    fat_make_attrs-fat_make_mode usual some_attrs s_irwxugo 5 s_irwxugo-AllWrite

abbrev by_eight : ℕ → ℕ
by_eight p = p % 8

abbrev nothing : InodeTable
nothing = record { bucket = λ h. []; i_pos = λ i. 0; i_count = λ i. 1; igrab = λ i. true }

fat_iget-fat_attach_example :
    (fat_iget by_eight (fat_attach by_eight nothing 7 160) 160).0
    ≡ (if 160 == 160 then some 7 else (fat_iget by_eight nothing 160).0)
fat_iget-fat_attach_example = fat_iget-fat_attach by_eight nothing 7 160 160 (λ h. refl) refl

not_there : (fat_iget by_eight nothing 160).0 ≡ none
unfolding fat_iget find_grabbed
not_there = refl

one-Reachable : Reachable by_eight (fat_attach by_eight nothing 7 160)
one-Reachable = attached 7 160 (λ h. refl) not_there (empty (λ i. 0) (λ i. 1) (λ i. true))

Reachable-IsHashed_example : IsHashed by_eight (fat_attach by_eight nothing 7 160)
Reachable-IsHashed_example =
    Reachable-IsHashed by_eight (fat_attach by_eight nothing 7 160) one-Reachable

placed_there : (fat_attach by_eight nothing 7 160).igrab 7 ≡ true
unfolding fat_attach
placed_there = refl

in_its_bucket :
    has 7 (
      (fat_attach by_eight nothing 7 160).bucket
        (by_eight ((fat_attach by_eight nothing 7 160).i_pos 7)))
    ≡ true
unfolding fat_attach
in_its_bucket = refl

fat_iget-fat_detach_example :
    (fat_iget by_eight (fat_detach (fat_attach by_eight nothing 7 160) 7) 160).0 ≡ (
      if 160 == (fat_attach by_eight nothing 7 160).i_pos 7
      then none
      else (fat_iget by_eight (fat_attach by_eight nothing 7 160) 160).0)
fat_iget-fat_detach_example =
    fat_iget-fat_detach by_eight (fat_attach by_eight nothing 7 160) 7 160
      (Reachable-IsHashed by_eight (fat_attach by_eight nothing 7 160) one-Reachable) placed_there
      in_its_bucket
