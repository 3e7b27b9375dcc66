-- ===== src/Mount/Options.antt =====
-- `parse_options` of ATS/myfat/sb_mgr.c, behind the kernel's `match_token`.
use ats_ldd.Base.{
  ℕ, ◌+◌, ◌-◌, ◌*◌, ◌/◌, ◌%◌, ◌^◌, Bool, true, false, not, List, [], ◌∷◌, Option, none, some,
  Result, ok, err, Errno, einval, enomem, if◌then◌else◌, ◌==◌,
}
use ats_ldd.Fat.Volume.{OnError, errors_cont, errors_panic, errors_ro}

-- The values of the tables `fat_tokens`, `msdos_tokens` and `vfat_tokens`.
pub data Token : Type 0 where
  opt_check_n opt_check_r opt_check_s opt_uid opt_gid opt_umask opt_dmask opt_fmask : Token
  opt_allow_utime opt_codepage opt_usefree opt_nocase opt_quiet opt_showexec opt_debug : Token
  opt_immutable opt_dots opt_nodots opt_charset opt_shortname_lower opt_shortname_win95 : Token
  opt_shortname_winnt opt_shortname_mixed opt_utf8_no opt_utf8_yes opt_uni_xl_no : Token
  opt_uni_xl_yes opt_nonumtail_no opt_nonumtail_yes opt_obsolate opt_flush opt_tz_utc : Token
  opt_rodir opt_err_cont opt_err_panic opt_err_ro opt_err : Token

-- An option of the list, by what the kernel answers for it: `match_token` with `fat_tokens` and with
-- the table of the file system, none for `Opt_err`; `match_int` or `match_octal` of its argument, as
-- an `int` by its bits; and `match_strdup` of it.
pub record Piece : Type 0 where
  pub in_fat : Option Token
  pub in_own : Option Token
  pub number : Option ℕ
  pub text : Option (List ℕ)

-- `name_check`
pub data Check : Type 0 where
  relaxed normal strict : Check

-- `VFAT_SFN_DISPLAY_LOWER` and the other flags.
abbrev pub display_lower : ℕ
display_lower = 0x0001

abbrev pub display_win95 : ℕ
display_win95 = 0x0002

abbrev pub display_winnt : ℕ
display_winnt = 0x0004

abbrev pub create_win95 : ℕ
create_win95 = 0x0100

abbrev pub create_winnt : ℕ
create_winnt = 0x0200

-- `struct fat_mount_options`, with `*debug`. An `iocharset` of none is `fat_default_iocharset`.
pub record MountOptions : Type 0 where
  pub fs_uid : ℕ
  pub fs_gid : ℕ
  pub fs_fmask : ℕ
  pub fs_dmask : ℕ
  pub codepage : ℕ
  pub iocharset : Option (List ℕ)
  pub shortname : ℕ
  pub name_check : Check
  pub errors : OnError
  pub allow_utime : ℕ
  pub quiet : Bool
  pub showexec : Bool
  pub sys_immutable : Bool
  pub dots_ok : Bool
  pub isvfat : Bool
  pub utf8 : Bool
  pub unicode_xlate : Bool
  pub numtail : Bool
  pub flush : Bool
  pub nocase : Bool
  pub usefree : Bool
  pub tz_utc : Bool
  pub rodir : Bool
  pub debug : Bool

-- The process that mounts, and `fat_default_codepage`.
pub record Caller : Type 0 where
  pub uid : ℕ
  pub gid : ℕ
  pub umask : ℕ
  pub default_codepage : ℕ

-- `(unsigned short) -1`
abbrev pub unset : ℕ
unset = 2 ^ 16 - 1

-- A mask and its complement, both cut to `S_IWGRP | S_IWOTH`, bits 4 and 1.
abbrev pub write_bits : ℕ → ℕ
write_bits x = x / 2 ^ 4 % 2 * 2 ^ 4 + x / 2 % 2 * 2

abbrev pub not_write_bits : ℕ → ℕ
not_write_bits x = (1 - x / 2 ^ 4 % 2) * 2 ^ 4 + (1 - x / 2 % 2) * 2

unfoldable pub defaults : Caller → Bool → MountOptions
defaults c is_vfat = record {
  fs_uid = c.uid;
  fs_gid = c.gid;
  fs_fmask = c.umask % 2 ^ 16;
  fs_dmask = c.umask % 2 ^ 16;
  codepage = c.default_codepage % 2 ^ 16;
  iocharset = none;
  shortname = if is_vfat then display_winnt + create_win95 else 0;
  name_check = normal;
  errors = errors_ro;
  allow_utime = unset;
  quiet = false;
  showexec = false;
  sys_immutable = false;
  dots_ok = false;
  isvfat = is_vfat;
  utf8 = false;
  unicode_xlate = false;
  numtail = true;
  flush = false;
  nocase = false;
  usefree = false;
  tz_utc = false;
  rodir = not is_vfat;
  debug = false;
}

-- What the loop does after an option: goes on, or returns 0 at once, or an error.
pub data Next : Type 0 where
  go_on : MountOptions → Next
  return_zero : MountOptions → Next
  fail : Errno → Next

-- `if (match_int (…)) return 0;`, and the option that takes the number.
abbrev pub numbered : Option ℕ → MountOptions → (ℕ → MountOptions) → Next
numbered none o f = return_zero o
numbered (some n) o f = go_on (f n)

-- The `switch`, for the token of an option.
unfoldable pub apply_token : Bool → Token → Piece → MountOptions → Next
apply_token is_vfat opt_check_s p o = go_on (record o { name_check = strict })
apply_token is_vfat opt_check_r p o = go_on (record o { name_check = relaxed })
apply_token is_vfat opt_check_n p o = go_on (record o { name_check = normal })
apply_token is_vfat opt_usefree p o = go_on (record o { usefree = true })
apply_token is_vfat opt_nocase p o = go_on (
    if not is_vfat
    then record o { nocase = true }
    else record o { shortname = display_win95 + create_win95 })
apply_token is_vfat opt_quiet p o = go_on (record o { quiet = true })
apply_token is_vfat opt_showexec p o = go_on (record o { showexec = true })
apply_token is_vfat opt_debug p o = go_on (record o { debug = true })
apply_token is_vfat opt_immutable p o = go_on (record o { sys_immutable = true })
apply_token is_vfat opt_uid p o = numbered p.number o (λ n. record o { fs_uid = n })
apply_token is_vfat opt_gid p o = numbered p.number o (λ n. record o { fs_gid = n })
apply_token is_vfat opt_umask p o =
    numbered p.number o (λ n. record o { fs_fmask = n % 2 ^ 16; fs_dmask = n % 2 ^ 16 })
apply_token is_vfat opt_dmask p o = numbered p.number o (λ n. record o { fs_dmask = n % 2 ^ 16 })
apply_token is_vfat opt_fmask p o = numbered p.number o (λ n. record o { fs_fmask = n % 2 ^ 16 })
apply_token is_vfat opt_allow_utime p o =
    numbered p.number o (λ n. record o { allow_utime = write_bits n })
apply_token is_vfat opt_codepage p o = numbered p.number o (λ n. record o { codepage = n % 2 ^ 16 })
apply_token is_vfat opt_flush p o = go_on (record o { flush = true })
apply_token is_vfat opt_tz_utc p o = go_on (record o { tz_utc = true })
apply_token is_vfat opt_err_cont p o = go_on (record o { errors = errors_cont })
apply_token is_vfat opt_err_panic p o = go_on (record o { errors = errors_panic })
apply_token is_vfat opt_err_ro p o = go_on (record o { errors = errors_ro })
apply_token is_vfat opt_dots p o = go_on (record o { dots_ok = true })
apply_token is_vfat opt_nodots p o = go_on (record o { dots_ok = false })
apply_token is_vfat opt_charset p o = elim (p.text) [
  | none ↦ fail enomem
  | some t ↦ go_on (record o { iocharset = some t })
]
apply_token is_vfat opt_shortname_lower p o =
    go_on (record o { shortname = display_lower + create_win95 })
apply_token is_vfat opt_shortname_win95 p o =
    go_on (record o { shortname = display_win95 + create_win95 })
apply_token is_vfat opt_shortname_winnt p o =
    go_on (record o { shortname = display_winnt + create_winnt })
apply_token is_vfat opt_shortname_mixed p o =
    go_on (record o { shortname = display_winnt + create_win95 })
apply_token is_vfat opt_utf8_no p o = go_on (record o { utf8 = false })
apply_token is_vfat opt_utf8_yes p o = go_on (record o { utf8 = true })
apply_token is_vfat opt_uni_xl_no p o = go_on (record o { unicode_xlate = false })
apply_token is_vfat opt_uni_xl_yes p o = go_on (record o { unicode_xlate = true })
apply_token is_vfat opt_nonumtail_no p o = go_on (record o { numtail = true })
apply_token is_vfat opt_nonumtail_yes p o = go_on (record o { numtail = false })
apply_token is_vfat opt_rodir p o = go_on (record o { rodir = true })
apply_token is_vfat opt_obsolate p o = go_on o
apply_token is_vfat opt_err p o = fail einval

-- The token: that of `fat_tokens`, or else that of the other table, or `Opt_err`.
unfoldable pub token_of : Piece → Token
token_of p = elim (p.in_fat) [ some t ↦ t | none ↦ elim (p.in_own) [ some t ↦ t | none ↦ opt_err ] ]

-- The next turn of the loop, if there is one.
unfoldable pub then_go_on : Next → (MountOptions → Next) → Next
then_go_on (go_on o) f = f o
then_go_on (return_zero o) f = return_zero o
then_go_on (fail e) f = fail e

-- The options that are not empty, in order.
unfoldable pub option_loop : Bool → List Piece → MountOptions → Next
unfolding then_go_on
option_loop is_vfat [] o = go_on o
option_loop is_vfat (p ∷ ps) o =
    then_go_on (apply_token is_vfat (token_of p) p o) λ o'. option_loop is_vfat ps o'

-- What stands behind the label `out`.
unfoldable pub finish_options : MountOptions → MountOptions
finish_options o = record o {
  allow_utime = if o.allow_utime == unset then not_write_bits o.fs_dmask else o.allow_utime;
  utf8 = if o.unicode_xlate then false else o.utf8;
}

unfoldable pub parse_options : Caller → Bool → Option (List Piece) → Result MountOptions
parse_options c is_vfat none = ok (finish_options (defaults c is_vfat))
parse_options c is_vfat (some ps) = elim (option_loop is_vfat ps (defaults c is_vfat)) [
  | go_on o ↦ ok (finish_options o)
  | return_zero o ↦ ok o
  | fail e ↦ err e
]
