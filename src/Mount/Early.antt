-- ===== src/Mount/Early.antt =====
-- The options of ATS/myfat/sb_mgr.c that take a number, and the early return of `parse_options`.
use ats_ldd.Base.{Bool, List, [], ◌∷◌, ◌++◌, none, some, ok, ◌≡◌, refl, arith}
use ats_ldd.Mount.Options.{
  Token, Piece, MountOptions, Caller, Next, opt_uid, opt_gid, opt_umask, opt_dmask, opt_fmask,
  opt_allow_utime, opt_codepage, go_on, return_zero, fail, apply_token, token_of, option_loop,
  then_go_on, defaults, parse_options,
}

-- The options whose `case` calls `match_int` or `match_octal`.
pub data TakesNumber : Token → Type 0 where
  uid : TakesNumber opt_uid
  gid : TakesNumber opt_gid
  umask : TakesNumber opt_umask
  dmask : TakesNumber opt_dmask
  fmask : TakesNumber opt_fmask
  allow_utime : TakesNumber opt_allow_utime
  codepage : TakesNumber opt_codepage

apply_bad :
    (v : Bool) (t : Token) (p : Piece) (o : MountOptions)
    → TakesNumber t
    → p.number ≡ none
    → apply_token v t p o ≡ return_zero o
unfolding apply_token
apply_bad v _ p o uid h = rw h refl
apply_bad v _ p o gid h = rw h refl
apply_bad v _ p o umask h = rw h refl
apply_bad v _ p o dmask h = rw h refl
apply_bad v _ p o fmask h = rw h refl
apply_bad v _ p o allow_utime h = rw h refl
apply_bad v _ p o codepage h = rw h refl

-- An option that is taken, before the rest.
then_go_on-++ :
    (n : Next) (f f' : MountOptions → Next) (o' : MountOptions) (r : Next)
    → ((o : MountOptions) → f o ≡ go_on o' → f' o ≡ r)
    → then_go_on n f ≡ go_on o'
    → then_go_on n f' ≡ r
unfolding then_go_on
then_go_on-++ (go_on o) f f' o' r k h = k o h
then_go_on-++ (return_zero o) f f' o' r k h = absurd (ground arith)
then_go_on-++ (fail e) f f' o' r k h = absurd (ground arith)

option_loop-++ :
    (v : Bool) (ps qs : List Piece) (o o' : MountOptions)
    → option_loop v ps o ≡ go_on o'
    → option_loop v (ps ++ qs) o ≡ option_loop v qs o'
unfolding option_loop
option_loop-++ v [] qs o o' h = ground arith
option_loop-++ v (p ∷ ps) qs o o' h =
    then_go_on-++ (apply_token v (token_of p) p o) (option_loop v ps)
      (λ x. option_loop v (ps ++ qs) x) o' (option_loop v qs o') (λ x. option_loop-++ v ps qs x o')
      h

stops_lem :
    (v : Bool) (p : Piece) (rest : List Piece) (o : MountOptions)
    → TakesNumber (token_of p)
    → p.number ≡ none
    → option_loop v (p ∷ rest) o ≡ return_zero o
unfolding option_loop
stops_lem v p rest o t h = rw (apply_bad v (token_of p) p o t h) refl

-- Where the options before one that takes a number are all taken, and the number of that one cannot
-- be read, `parse_options` succeeds with what the options before it set: what follows is ignored
-- whatever it is, an unknown option too, and neither `allow_utime` nor `utf8` is put right at the end.
pub parse_options-bad_number :
    (c : Caller) (v : Bool) (before : List Piece) (p : Piece) (rest : List Piece) (o : MountOptions)
    → option_loop v before (defaults c v) ≡ go_on o
    → TakesNumber (token_of p)
    → p.number ≡ none
    → parse_options c v (some (before ++ p ∷ rest)) ≡ ok o
unfolding parse_options
parse_options-bad_number c v before p rest o h t none_read =
    ground (
      arith,
      option_loop-++ v before (p ∷ rest) (defaults c v) o h,
      stops_lem v p rest o t none_read,
    )
