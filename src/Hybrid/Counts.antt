-- ===== src/Hybrid/Counts.antt =====
-- WriteMem leaves the counts of reads (src/storage/hybrid/value.h).
use rec_store.Prelude.{
  ℕ, ◌+◌, ◌%◌, ◌^◌, ◌≡◌, refl, Bool, true, false, not, ◌&&◌, Option, none, some, List, ◌==◌, ltb,
  leb, if◌then◌else◌, length,
}
use rec_store.Pointer.{UnifiedPointer, from_invalid, from_memory, from_p_mem}
use rec_store.Hybrid.Allocator.{Allocator}
use rec_store.Hybrid.Inline.{inline_word}
use rec_store.Hybrid.Lru.{Lru, insert}
use rec_store.Hybrid.Blocks.{write_at, block_bytes}
use rec_store.Hybrid.Store.{Store, ◌>>=◌, write_mem, placed_in_memory}

module _ {S D : Type 0} (shm : Allocator S) (ssd : Allocator D) where
  -- If the operation succeeds, the counts are h.
  abbrev pub KeptHot : Option (UnifiedPointer × Store S D) → (ℕ → Option ℕ) → Type 0
  KeptHot none h = Unit
  KeptHot (some r) h = r.1.hot ≡ h

  bind-KeptHot :
      {A : Type 0} (o : Option A) (f : A → Option (UnifiedPointer × Store S D)) (h : ℕ → Option ℕ)
      → ((a : A) → KeptHot (f a) h)
      → KeptHot (o >>= f) h
  bind-KeptHot none f h kept = tt
  bind-KeptHot (some a) f h kept = kept a

  if-KeptHot :
      (b : Bool) (x y : Option (UnifiedPointer × Store S D)) (h : ℕ → Option ℕ)
      → KeptHot x h
      → KeptHot y h
      → KeptHot (if b then x else y) h
  if-KeptHot true x y h kept other = kept
  if-KeptHot false x y h kept other = other

  placed_in_memory-KeptHot :
      (s : Store S D) (key : ℕ) (v : List ℕ) (given : Option ℕ × S)
      → KeptHot (placed_in_memory shm ssd s key v given) s.hot
  placed_in_memory-KeptHot s key v (none, a) = refl
  placed_in_memory-KeptHot s key v (some ptr, a) =
      let stored : Lru → UnifiedPointer → UnifiedPointer × Store S D = λ l p. (
        p,
        record s {
          shm_manage = a;
          memory = write_at s.memory ptr (block_bytes v);
          shm_used_bytes = (s.shm_used_bytes + (2 + length v)) % 2 ^ 64;
          lru = l;
        },
      ) in
      bind-KeptHot (insert s.lru key) (λ l. from_memory ptr >>= λ p. some (stored l p)) s.hot
        (λ l. bind-KeptHot (from_memory ptr) (λ p. some (stored l p)) s.hot (λ p. refl))

  pub write_mem-KeptHot :
      (s : Store S D) (key : ℕ) (v : List ℕ) → KeptHot (write_mem shm ssd s key v) s.hot
  unfolding write_mem
  write_mem-KeptHot s key v =
      let inline : Option (UnifiedPointer × Store S D) =
        from_p_mem (inline_word v) >>= λ p. some (p, s) in
      let long : Option (UnifiedPointer × Store S D) = some (from_invalid, s) in
      let placed : Option (UnifiedPointer × Store S D) =
        shm.new s.shm_manage (2 + length v) >>= placed_in_memory shm ssd s key v in
      if-KeptHot (not (length v == 0) && leb (length v) 7) inline
        (if ltb 65535 (length v) then long else placed) s.hot
        (bind-KeptHot (from_p_mem (inline_word v)) (λ p. some (p, s)) s.hot (λ p. refl))
        (if-KeptHot (ltb 65535 (length v)) long placed s.hot refl (
          bind-KeptHot (shm.new s.shm_manage (2 + length v)) (placed_in_memory shm ssd s key v)
            s.hot (placed_in_memory-KeptHot s key v)))
