-- ===== src/Malloc/Layout.antt =====
-- The blocks of user/libc/malloc.c do not overlap.
use cool_os.Prelude.{
  ℕ, ◌+◌, ◌-◌, ◌%◌, ◌^◌, ◌≤◌, ◌<◌, ◌≡◌, refl, sym, subst, ap, true, false, Option, none, some, List,
  [], ◌∷◌, arith, ltb, if◌then◌else◌, Bool-cases, inl, inr, ◌⊎◌,
}
use cool_os.Malloc.{Bump, heap_size, initialize, rounded, bump, malloc, mallocs}

-- The blocks lie one behind the other between `lo` and `hi`, each at a multiple of 16 from `base`.
abbrev pub Laid : ℕ → ℕ → ℕ → List ℕ → List (Option ℕ) → Type 0
Laid base lo hi [] [] = lo ≤ hi
Laid base lo hi (size ∷ sizes) (none ∷ rs) = Laid base lo hi sizes rs
Laid base lo hi (size ∷ sizes) (some p ∷ rs) =
    (lo ≤ p) × ((p - base) % 16 ≡ 0) × Laid base (p + size) hi sizes rs
Laid base lo hi sizes rs = ⊥

-- The pointer stands in the array, at a multiple of 16, once it is set.
pub record IsBump (b : Bump) : Type 0 where
  pub set : b.heap_initialized ≡ true
  pub low : b.heap ≤ b.heap_ptr
  pub high : b.heap_ptr ≤ b.heap + heap_size
  pub aligned : (b.heap_ptr - b.heap) % 16 ≡ 0
  pub addressable : b.heap + heap_size < 2 ^ 48

abbrev AllBelow : ℕ → List ℕ → Type 0
AllBelow n [] = Unit {0}
AllBelow n (size ∷ sizes) = (size < n) × AllBelow n sizes

-- Both outcomes of one request.
module _ (size : ℕ) (b : Bump) (h : IsBump b) (small : size < 2 ^ 63) where
  abbrev bumped : Bump
  bumped = record b { heap_ptr = (b.heap_ptr + rounded size) % 2 ^ 64 }

  no_wrap : (b.heap_ptr + rounded size) % 2 ^ 64 ≡ b.heap_ptr + rounded size
  no_wrap = omega (arith, h.addressable, h.high)

  bump-cases :
      (bump size b ≡ (none, b))
      ⊎ ((b.heap_ptr + rounded size ≤ b.heap + heap_size)
          × (bump size b ≡ (some b.heap_ptr, bumped)))
  unfolding bump
  bump-cases =
      let top : (b.heap + heap_size) % 2 ^ 64 ≡ b.heap + heap_size = omega (arith, h.addressable) in
      elim (Bool-cases
        (ltb ((b.heap + heap_size) % 2 ^ 64) ((b.heap_ptr + rounded size) % 2 ^ 64))) [
          | inl full ↦ inl (rw full refl)
          | inr fits ↦ inr (ground (arith, fits, top, no_wrap), rw fits refl)
        ]

  bumped-IsBump : b.heap_ptr + rounded size ≤ b.heap + heap_size → IsBump bumped
  bumped-IsBump fits = record {
    set = h.set;
    low = omega (arith, h.low, no_wrap);
    high = omega (arith, fits, no_wrap);
    aligned = omega (arith, h.low, h.aligned, no_wrap);
    addressable = h.addressable;
  }

initialize-IsBump : (b : Bump) → IsBump b → initialize b ≡ b
initialize-IsBump b h =
    ap (λ x. if x then b else record b { heap_ptr = b.heap; heap_initialized = true }) h.set

Laid-lower :
    (base lo lo' hi : ℕ) (sizes : List ℕ) (rs : List (Option ℕ))
    → lo ≤ lo'
    → Laid base lo' hi sizes rs
    → Laid base lo hi sizes rs
Laid-lower base lo lo' hi [] [] le h = omega arith
Laid-lower base lo lo' hi [] (r ∷ rs) le h = h
Laid-lower base lo lo' hi (size ∷ sizes) [] le h = h
Laid-lower base lo lo' hi (size ∷ sizes) (none ∷ rs) le h = Laid-lower base lo lo' hi sizes rs le h
Laid-lower base lo lo' hi (size ∷ sizes) (some p ∷ rs) le h = (omega arith, h.1, h.2)

mallocs_after :
    (size : ℕ) (sizes : List ℕ) (b : Bump)
    → IsBump b
    → (mallocs (size ∷ sizes) b).0 ≡ (bump size b).0 ∷ (mallocs sizes (bump size b).1).0
unfolding mallocs malloc
mallocs_after size sizes b h =
    ap (λ s. (bump size s).0 ∷ (mallocs sizes (bump size s).1).0) (initialize-IsBump b h)

mallocs-IsBump :
    (sizes : List ℕ) (b : Bump)
    → AllBelow (2 ^ 63) sizes
    → IsBump b
    → Laid b.heap b.heap_ptr (b.heap + heap_size) sizes (mallocs sizes b).0
mallocs-IsBump [] b small h = unfold mallocs in h.high
mallocs-IsBump (size ∷ sizes) b small h =
    rw (mallocs_after size sizes b h) (elim (bump-cases size b h small.0) [
      | inl full ↦ rw full (mallocs-IsBump sizes b small.1 h)
      | inr fits ↦
          let next = bumped size b h small.0 in
          let rest = mallocs-IsBump sizes next small.1 (bumped-IsBump size b h small.0 fits.0) in
          let behind : b.heap_ptr + size ≤ next.heap_ptr =
            omega (arith, no_wrap size b h small.0, small.0) in
          rw (fits.1) (
            omega arith,
            h.aligned,
            Laid-lower b.heap (b.heap_ptr + size) next.heap_ptr (b.heap + heap_size) sizes
                (mallocs sizes next).0 behind rest,
          )
    ])

-- However many requests of less than 2 ^ 63 bytes a program makes from its start on, the blocks that
-- it gets lie one behind the other in the array, each as long as asked for and at a multiple of 16
-- from the array's start. The array has to end below address 2 ^ 48.
pub mallocs-Laid :
    (sizes : List ℕ) (b : Bump)
    → AllBelow (2 ^ 63) sizes
    → b.heap_initialized ≡ false
    → b.heap + heap_size < 2 ^ 48
    → Laid b.heap b.heap (b.heap + heap_size) sizes (mallocs sizes b).0
mallocs-Laid sizes b small fresh low =
    let start = record b { heap_ptr = b.heap; heap_initialized = true } in
    let h : IsBump start = record {
      set = refl;
      low = omega arith;
      high = omega arith;
      aligned = omega arith;
      addressable = low;
    } in
    let same : initialize b ≡ start = ap (λ x. if x then b else start) fresh in
    subst (Laid b.heap b.heap (b.heap + heap_size) sizes) (sym (started sizes same))
      (mallocs-IsBump sizes start small h)
  where
    started :
        (sizes : List ℕ)
        → initialize b ≡ record b { heap_ptr = b.heap; heap_initialized = true }
        → (mallocs sizes b).0
          ≡ (mallocs sizes (record b { heap_ptr = b.heap; heap_initialized = true })).0
    started [] same = unfold mallocs in refl
    started (size ∷ sizes) same =
        unfold mallocs malloc in ap (λ s. (bump size s).0 ∷ (mallocs sizes (bump size s).1).0) same
