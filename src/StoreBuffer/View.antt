-- ===== src/StoreBuffer/View.antt =====
-- What a core sees through its buffer: the flat memory after all buffered stores.
use mesi_cache_coherence.Common.{
  ℕ, ◌≤◌, ◌≡◌, refl, ap, ◌∙◌, List, [], ◌∷◌, ◌++◌, arith, update, get_or, if◌then◌else◌, ◌==◌,
  length, suc, zero,
}
use mathlib.Core.List.{reverse, reverse-cons}
use mesi_cache_coherence.StoreBuffer.{SbEntry, find_entry, take_at}

unfoldable pub store_all : List SbEntry → (ℕ → ℕ) → ℕ → ℕ
store_all [] m = m
store_all (e ∷ rest) m = store_all rest (update m e.addr e.val)

pub store_all-append :
    (xs : List SbEntry) (e : SbEntry) (m : ℕ → ℕ)
    → store_all (xs ++ e ∷ []) m ≡ update (store_all xs m) e.addr e.val
unfolding store_all
store_all-append [] e m = refl
store_all-append (x ∷ xs) e m = store_all-append xs e (update m x.addr x.val)

find_entry-append :
    (addr : ℕ) (xs : List SbEntry) (e : SbEntry) (d : ℕ)
    → get_or (find_entry addr (xs ++ e ∷ [])) d
      ≡ get_or (find_entry addr xs) (if e.addr == addr then e.val else d)
unfolding find_entry
find_entry-append addr [] e d = ground arith
find_entry-append addr (x ∷ xs) e d = ground (arith, find_entry-append addr xs e d)

-- The newest entry of the address, or else the memory: that is the view.
pub find_entry-store_all :
    (addr : ℕ) (buf : List SbEntry) (m : ℕ → ℕ)
    → get_or (find_entry addr (reverse buf)) (m addr) ≡ store_all buf m addr
unfolding store_all
find_entry-store_all addr [] m = unfold find_entry in refl
find_entry-store_all addr (e ∷ rest) m = rw (reverse-cons e rest) (
    find_entry-append addr (reverse rest) e (m addr)
    ∙ ground (arith, find_entry-store_all addr rest (update m e.addr e.val)))

pub length-take_at :
    (i : ℕ) (e : SbEntry) (rest : List SbEntry)
    → i ≤ length rest
    → length (take_at i e rest).1 ≡ length rest
unfolding take_at
length-take_at zero e rest h = refl
length-take_at (suc i) e [] h = absurd (omega arith)
length-take_at (suc i) e (x ∷ rest) h = ap suc (length-take_at i x rest (omega arith))
