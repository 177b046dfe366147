-- ===== src/RingQueue/Contents.antt =====
-- What a circular queue holds, and when its fields fit together.
use csc.Base.{
  ℕ, zero, suc, ◌+◌, ◌-◌, ◌%◌, ◌^◌, ◌≤◌, ◌<◌, ◌≡◌, ◌≢◌, refl, sym, ap, ap₂, ◌⊎◌, inl, inr, ◌∙◌, ℤ,
  pos, List, [], ◌∷◌, ◌++◌, arith, length, length-append, get_or, set, dec_lt,
}
use native.Mathlib.Nat.{mod-eq_of_lt, mod-eq-sub-mod, mod-add-mod, add-zero}
use csc.RingQueue.{Queue, construct_custom_queue}

-- The `n` items from index `h` on, the oldest first.
abbrev pub items : List ℤ → ℕ → ℕ → ℕ → List ℤ
items array capacity h zero = []
items array capacity h (suc n) =
    items array capacity h n ++ (get_or array ((h + n) % capacity) (pos 0) ∷ [])

abbrev pub contents : Queue → List ℤ
contents q = items q.array q.capacity q.head q.size

-- The indices lie in the array, and the newest item stands `size` places behind `head`, less one.
pub record IsValid (q : Queue) : Type 0 where
  pub some_room : 0 < q.capacity
  pub fits_int : q.capacity < 2 ^ 31
  pub allocated : q.capacity ≤ length q.array
  pub size_fits : q.size ≤ q.capacity
  pub head_in : q.head < q.capacity
  pub tail_in : q.tail < q.capacity
  pub newest : q.tail ≡ (q.head + q.size + q.capacity - 1) % q.capacity

-- A queue that is made for at least one item and at most 2 ^ 31 - 1, with memory for them, is valid
-- and holds nothing.
pub construct-IsValid :
    (capacity : ℕ) (memory : List ℤ)
    → 0 < capacity
    → capacity < 2 ^ 31
    → capacity ≤ length memory
    → IsValid (construct_custom_queue capacity memory)
      × (contents (construct_custom_queue capacity memory) ≡ [])
unfolding construct_custom_queue
construct-IsValid capacity memory lo hi m =
    let t : (capacity + 2 ^ 32 - 1) % 2 ^ 32 ≡ capacity - 1 = omega arith in
    let e : 0 + 0 + capacity - 1 ≡ capacity - 1 = omega arith in
    (
      record {
        some_room = lo;
        fits_int = hi;
        allocated = m;
        size_fits = omega arith;
        head_in = lo;
        tail_in = omega arith;
        newest = t ∙ sym (ap (λ k. k % capacity) e ∙ mod-eq_of_lt (omega arith));
      },
      refl,
    )

pub length-items : (array : List ℤ) (capacity h n : ℕ) → length (items array capacity h n) ≡ n
length-items array capacity h zero = refl
length-items array capacity h (suc n) =
    length-append (items array capacity h n) _ ∙ omega (arith, length-items array capacity h n)

-- A remainder once round at most.
pub once_round : (x c : ℕ) → x < c + c → ((x < c) × (x % c ≡ x)) ⊎ ((c ≤ x) × (x % c ≡ x - c))
once_round x c h = elim (dec_lt x c) [
  | yes below ↦ inl (below, mod-eq_of_lt below)
  | no above ↦ inr (omega arith, mod-eq-sub-mod (omega arith) ∙ mod-eq_of_lt (omega arith))
]

-- Steps of fewer than `capacity` lead to different places.
pub place-ne :
    {capacity h i n : ℕ}
    → h < capacity
    → i < n
    → n < capacity
    → (h + i) % capacity ≢ (h + n) % capacity
place-ne {capacity} {h} {i} {n} a b c =
    omega
      (arith, once_round (h + i) capacity (omega arith), once_round (h + n) capacity (omega arith))

pub get_or-set_self : (xs : List ℤ) (i : ℕ) (v d : ℤ) → i < length xs → get_or (set xs i v) i d ≡ v
get_or-set_self [] i v d h = absurd (omega arith)
get_or-set_self (x ∷ xs) zero v d h = refl
get_or-set_self (x ∷ xs) (suc i) v d h = get_or-set_self xs i v d (omega arith)

pub get_or-set_ne :
    (xs : List ℤ) (i j : ℕ) (v d : ℤ) → j ≢ i → get_or (set xs i v) j d ≡ get_or xs j d
get_or-set_ne [] i j v d h = refl
get_or-set_ne (x ∷ xs) zero zero v d h = absurd (h refl)
get_or-set_ne (x ∷ xs) zero (suc j) v d h = refl
get_or-set_ne (x ∷ xs) (suc i) zero v d h = refl
get_or-set_ne (x ∷ xs) (suc i) (suc j) v d h = get_or-set_ne xs i j v d (λ e. h (ap suc e))

-- A write behind the items leaves them as they are.
pub items-set :
    (array : List ℤ) (capacity h n k : ℕ) (v : ℤ)
    → h < capacity
    → n ≤ k
    → k < capacity
    → items (set array ((h + k) % capacity) v) capacity h n ≡ items array capacity h n
items-set array capacity h zero k v a b c = refl
items-set array capacity h (suc n) k v a b c =
    ap₂ (λ xs x. xs ++ (x ∷ [])) (items-set array capacity h n k v a (omega arith) c)
      (get_or-set_ne array _ _ v (pos 0) (place-ne a b c))

-- The oldest item comes first.
pub items-suc :
    (array : List ℤ) (capacity h n : ℕ)
    → h < capacity
    → items array capacity h (suc n)
      ≡ get_or array h (pos 0) ∷ items array capacity ((h + 1) % capacity) n
items-suc array capacity h zero a = rw (add-zero, mod-eq_of_lt a)
items-suc array capacity h (suc n) a =
    ap₂ (λ xs k. xs ++ (get_or array k (pos 0) ∷ [])) (items-suc array capacity h n a)
      (ap (λ k. k % capacity) (omega arith) ∙ sym (mod-add-mod (h + 1) capacity n))
