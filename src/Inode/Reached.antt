-- ===== src/Inode/Reached.antt =====
-- The tables of inodes that the operations of ATS/myfat/fat_inode.c lead to.
use ats_ldd.Base.{
  ℕ, ◌+◌, ◌≡◌, ◌≢◌, sym, ap, ◌∙◌, Bool, true, not, ◌&&◌, [], Option, none, some, has, arith,
  ℕ_discrete,
}
use ats_ldd.Inode.{InodeTable, set, find_grabbed, fat_iget, fat_detach, fat_attach}
use ats_ldd.Inode.Find.{Fresh, IsHashed, found_lem, find-none_back, remove-has}

-- What happens to a table: a lookup; a new inode for a position at which none was found, as in
-- `fat_build_inode`; an inode that is detached; one that is on its way out.
pub data Reachable (hash : ℕ → ℕ) : InodeTable → Type 0 where
  empty :
      (at count : ℕ → ℕ) (igrab : ℕ → Bool)
      → Reachable hash (record { bucket = λ h. []; i_pos = at; i_count = count; igrab = igrab })
  looked : {t : InodeTable} (p : ℕ) → Reachable hash t → Reachable hash (fat_iget hash t p).1
  attached :
      {t : InodeTable} (i pos : ℕ)
      → Fresh t i
      → (fat_iget hash t pos).0 ≡ none
      → Reachable hash t
      → Reachable hash (fat_attach hash t i pos)
  detached : {t : InodeTable} (i : ℕ) → Reachable hash t → Reachable hash (fat_detach t i)
  leaving :
      {t : InodeTable} (gone : ℕ → Bool)
      → Reachable hash t
      → Reachable hash (record t { igrab = λ i. t.igrab i && not (gone i) })

-- No inode that `igrab` grants stands at a position at which none was found.
away_lem :
    (hash : ℕ → ℕ) (t : InodeTable) (pos h j : ℕ)
    → (fat_iget hash t pos).0 ≡ none
    → hash pos ≡ h
    → has j (t.bucket h) ≡ true
    → t.igrab j ≡ true
    → t.i_pos j ≢ pos
away_lem hash t pos h j away e there ok =
    find-none_back t.igrab t.i_pos pos (t.bucket (hash pos)) j (sym (found_lem hash t pos) ∙ away)
      (ap (λ (x : ℕ). has j (t.bucket x)) e ∙ there) ok

IsHashed-fat_attach :
    (hash : ℕ → ℕ) (t : InodeTable) (i pos : ℕ)
    → Fresh t i
    → (fat_iget hash t pos).0 ≡ none
    → IsHashed hash t
    → IsHashed hash (fat_attach hash t i pos)
unfolding fat_attach
IsHashed-fat_attach hash t i pos fresh away k = record {
  placed = λ h j there. let f = fresh h in let p = k.placed h j in ground arith;
  single = λ h a b ia ib ga gb e. pair h a b ia ib ga gb e (ℕ_discrete i a) (ℕ_discrete i b);
}
  where
    t' : InodeTable
    t' = fat_attach hash t i pos

    pair :
        (h a b : ℕ)
        → has a (t'.bucket h) ≡ true
        → has b (t'.bucket h) ≡ true
        → t.igrab a ≡ true
        → t.igrab b ≡ true
        → t'.i_pos a ≡ t'.i_pos b
        → Dec (i ≡ a)
        → Dec (i ≡ b)
        → a ≡ b
    pair h a b ia ib ga gb e (yes x) (yes y) = sym x ∙ y
    pair h a b ia ib ga gb e (yes x) (no y) =
        let f = fresh h in
        let in_i : has i (t'.bucket h) ≡ true = ap (λ (z : ℕ). has z (t'.bucket h)) x ∙ ia in
        absurd (away_lem hash t pos h b away (ground arith) (ground arith) gb (ground arith))
    pair h a b ia ib ga gb e (no x) (yes y) =
        let f = fresh h in
        let in_i : has i (t'.bucket h) ≡ true = ap (λ (z : ℕ). has z (t'.bucket h)) y ∙ ib in
        absurd (away_lem hash t pos h a away (ground arith) (ground arith) ga (ground arith))
    pair h a b ia ib ga gb e (no x) (no y) =
        k.single h a b (ground arith) (ground arith) ga gb (ground arith)

IsHashed-fat_detach :
    (hash : ℕ → ℕ) (t : InodeTable) (i : ℕ) → IsHashed hash t → IsHashed hash (fat_detach t i)
unfolding fat_detach
IsHashed-fat_detach hash t i k = record {
  placed = λ h j there.
      let (was, other) = remove-has i j (t.bucket h) there in
      let p = k.placed h j was in ground arith;
  single = λ h a b ia ib ga gb e.
      let (was_a, other_a) = remove-has i a (t.bucket h) ia in
      let (was_b, other_b) = remove-has i b (t.bucket h) ib in
      k.single h a b was_a was_b ga gb (ground arith);
}

IsHashed-looked :
    (hash : ℕ → ℕ) (t : InodeTable)
    → IsHashed hash t
    → (o : Option ℕ)
    → IsHashed hash
        (elim o as (λ x. Option ℕ × InodeTable) [
          | none ↦ (none, t)
          | some i ↦ (some i, record t { i_count = set (t.i_count) i (t.i_count i + 1) })
        ]).1
IsHashed-looked hash t k none = k
IsHashed-looked hash t k (some i) = record { placed = k.placed; single = k.single }

-- Every table that lookups, attaching where nothing was found, detaching and leaving lead to from
-- an empty one has each inode in the bucket of its position, and for each position at most one
-- inode that `igrab` grants.
pub Reachable-IsHashed : (hash : ℕ → ℕ) (t : InodeTable) → Reachable hash t → IsHashed hash t
unfolding fat_iget
Reachable-IsHashed hash t (empty at count igrab) = record {
  placed = λ h i there. absurd (ground arith);
  single = λ h i j there. absurd (ground arith);
}
Reachable-IsHashed hash t (looked {t = s} p r) =
    IsHashed-looked hash s (Reachable-IsHashed hash s r)
      (find_grabbed s.igrab s.i_pos p (s.bucket (hash p)))
Reachable-IsHashed hash t (attached {t = s} i pos fresh away r) =
    IsHashed-fat_attach hash s i pos fresh away (Reachable-IsHashed hash s r)
Reachable-IsHashed hash t (detached {t = s} i r) =
    IsHashed-fat_detach hash s i (Reachable-IsHashed hash s r)
Reachable-IsHashed hash t (leaving {t = s} gone r) =
    let k = Reachable-IsHashed hash s r in
    record {
      placed = k.placed;
      single = λ h i j a b ga gb e. k.single h i j a b (ground arith) (ground arith) e;
    }
