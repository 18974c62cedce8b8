-- ===== src/Memory/View.antt =====
-- What a process sees in its pages, and how a new page changes it.
use operating_system_col.Base.{
  ℕ, ◌+◌, ◌*◌, ◌%◌, ◌<◌, ◌≡◌, ◌≢◌, refl, sym, ap, ◌∙◌, subst, inl, inr, Bool, true, false, Option,
  none, some, ◌==◌, if◌then◌else◌, ==_iff, arith, Bool-cases,
}
use operating_system_col.Syscall.{word}
use operating_system_col.Syscall.Children.{page_size}
use operating_system_col.Syscall.Address.{page_of}
use operating_system_col.Memory.{is_within}
use operating_system_col.Memory.Scan.{Filled}
use operating_system_col.Memory.Pool.{Pools}
use operating_system_col.Memory.Paging.{Platform, Paging}

abbrev pub IsAligned : ℕ → Type 0
IsAligned a = a % page_size ≡ 0

pub page_of-IsAligned : (a : ℕ) → IsAligned (page_of a)
page_of-IsAligned a = omega arith

-- The page directory maps what it was told to map, and nothing else changes it.
pub record Maps (P : Platform) : Type 0 where
  pub set_get :
      (u k : ℕ) (writable : Bool) (w : P.World) (v : ℕ)
      → IsAligned u
      → IsAligned v
      → (P.pagedir_set_page u k writable w).0 ≡ true
      → P.pagedir_get_page v (P.pagedir_set_page u k writable w).1
        ≡ (if v == u then k else P.pagedir_get_page v w)
  pub malloc_get :
      (w : P.World) (v : ℕ) → P.pagedir_get_page v (P.malloc w).1 ≡ P.pagedir_get_page v w
  pub read_get :
      (ofs n : ℕ) (w : P.World) (v : ℕ)
      → P.pagedir_get_page v (P.file_read_at ofs n w).1 ≡ P.pagedir_get_page v w

module _ (P : Platform) where
  abbrev pub mapping : ℕ → Paging P → ℕ
  mapping u s = P.pagedir_get_page u s.world

  -- The byte that the process reads at an address, if the page is mapped.
  abbrev pub user_byte : ℕ → Paging P → Option ℕ
  user_byte a s =
      if mapping (page_of a) s == 0
      then none
      else some (s.pools.memory (mapping (page_of a) s + a % page_size))

  -- A page of the user pool that is in use.
  pub record InUse (k : ℕ) (p : Pools) : Type 0 where
    pub index : ℕ
    pub in_range : index < p.user_pool.used_map.bit_cnt
    pub used : p.user_pool.used_map.bits index ≡ true
    pub is_page : k ≡ (p.user_pool.base + index) * page_size

  -- Every page that is mapped is one of the user pool in use, and none is mapped twice.
  pub record IsPaged (s : Paging P) : Type 0 where
    pub small : s.pools.user_pool.used_map.bit_cnt < word
    pub base_pos : 0 < s.pools.user_pool.base
    pub mapped : (u : ℕ) → IsAligned u → mapping u s ≢ 0 → InUse (mapping u s) s.pools
    pub separate :
        (u v : ℕ) → IsAligned u → IsAligned v → mapping u s ≢ 0 → mapping u s ≡ mapping v s → u ≡ v

  -- A free page `pa` of the pool has been filled and mapped at `u`.
  pub record Installed (u pa : ℕ) (s s' : Paging P) : Type 0 where
    pub aligned : IsAligned u
    pub absent : mapping u s ≡ 0
    pub index : ℕ
    pub in_range : index < s.pools.user_pool.used_map.bit_cnt
    pub was_free : s.pools.user_pool.used_map.bits index ≡ false
    pub is_page : pa ≡ (s.pools.user_pool.base + index) * page_size
    pub filled : Filled index 1 true s.pools.user_pool.used_map s'.pools.user_pool.used_map
    pub same_base : s'.pools.user_pool.base ≡ s.pools.user_pool.base
    pub mappings : (v : ℕ) → IsAligned v → mapping v s' ≡ (if v == u then pa else mapping v s)
    pub outside : (a : ℕ) → is_within pa page_size a ≡ false → s'.pools.memory a ≡ s.pools.memory a

  module _ (u pa : ℕ) (s s' : Paging P) (w : IsPaged s) (i : Installed u pa s s') where
    pa_pos : pa ≢ 0
    pa_pos e = absurd (omega (arith, i.is_page, w.base_pos, e))

    mapping_here : (v : ℕ) → IsAligned v → (v == u) ≡ true → mapping v s' ≡ pa
    mapping_here v al e = i.mappings v al ∙ rw e refl

    mapping_else : (v : ℕ) → IsAligned v → (v == u) ≡ false → mapping v s' ≡ mapping v s
    mapping_else v al e = i.mappings v al ∙ rw e refl

    -- The new page is none of those in use before.
    InUse-ne : (k : ℕ) (q : InUse k s.pools) → q.index ≢ i.index
    InUse-ne k q e =
        let both : s.pools.user_pool.used_map.bits i.index ≡ true =
          ap s.pools.user_pool.used_map.bits (sym e) ∙ q.used in
        cc (both, i.was_free)

    InUse-keep : (k : ℕ) → InUse k s.pools → InUse k s'.pools
    InUse-keep k q = record {
      index = q.index;
      in_range = omega (arith, q.in_range, i.filled.same_cnt);
      used = ground (arith, i.filled.each q.index, q.used);
      is_page = q.is_page ∙ ap (λ b. (b + q.index) * page_size) (sym i.same_base);
    }

    InUse-new : InUse pa s'.pools
    InUse-new = record {
      index = i.index;
      in_range = omega (arith, i.in_range, i.filled.same_cnt);
      used = ground (arith, i.filled.each i.index);
      is_page = i.is_page ∙ ap (λ b. (b + i.index) * page_size) (sym i.same_base);
    }

    mapped_after : (v : ℕ) → IsAligned v → mapping v s' ≢ 0 → InUse (mapping v s') s'.pools
    mapped_after v al ne = elim (Bool-cases (v == u)) [
      | inl e ↦ subst (λ k. InUse k s'.pools) (sym (mapping_here v al e)) InUse-new
      | inr e ↦
          let same = mapping_else v al e in
          subst (λ k. InUse k s'.pools) (sym same)
            (InUse-keep (mapping v s) (w.mapped v al λ z. ne (same ∙ z)))
    ]

    new_ne_old : (v : ℕ) → IsAligned v → pa ≢ mapping v s
    new_ne_old v al e =
        let q = w.mapped v al (λ z. pa_pos (e ∙ z)) in
        InUse-ne (mapping v s) q (omega (arith, q.is_page, i.is_page, e))

    separate_after :
        (v x : ℕ)
        → IsAligned v
        → IsAligned x
        → mapping v s' ≢ 0
        → mapping v s' ≡ mapping x s'
        → v ≡ x
    separate_after v x al al' ne same = elim (Bool-cases (v == u)) [
      | inl e ↦ elim (Bool-cases (x == u)) [
        | inl f ↦ (==_iff v u).0 e ∙ sym ((==_iff x u).0 f)
        | inr f ↦
            absurd (new_ne_old x al' (sym (mapping_here v al e) ∙ same ∙ mapping_else x al' f))
      ]
      | inr e ↦ elim (Bool-cases (x == u)) [
        | inl f ↦
            absurd (new_ne_old v al (sym (mapping_here x al' f) ∙ sym same ∙ mapping_else v al e))
        | inr f ↦
            w.separate v x al al' (λ z. ne (mapping_else v al e ∙ z))
              (sym (mapping_else v al e) ∙ same ∙ mapping_else x al' f)
      ]
    ]

    pub Installed-IsPaged : IsPaged s'
    Installed-IsPaged = record {
      small = omega (arith, w.small, i.filled.same_cnt);
      base_pos = omega (arith, w.base_pos, i.same_base);
      mapped = mapped_after;
      separate = separate_after;
    }

    old_byte :
        (k o : ℕ)
        → o < page_size
        → InUse k s.pools
        → s'.pools.memory (k + o) ≡ s.pools.memory (k + o)
    old_byte k o l q =
        let ne = InUse-ne k q in i.outside (k + o) (ground (arith, q.is_page, i.is_page, ne))

    -- The process sees the new page, and every other one as before.
    pub Installed-user_byte :
        (a : ℕ)
        → user_byte a s'
          ≡ (if page_of a == u then some (s'.pools.memory (pa + a % page_size)) else user_byte a s)
    Installed-user_byte a = elim (Bool-cases (page_of a == u)) [
      | inl e ↦
          let here = mapping_here (page_of a) (page_of-IsAligned a) e in
          let present : (pa == 0) ≡ false = ground (arith, pa_pos) in rw (e, here, present) refl
      | inr e ↦
          let same = mapping_else (page_of a) (page_of-IsAligned a) e in
          elim (Bool-cases (mapping (page_of a) s == 0)) [
            | inl z ↦ rw (e, same, z) refl
            | inr z ↦
                let ne : mapping (page_of a) s ≢ 0 = ground arith in
                rw (e, same, z)
                  (ap some (
                    old_byte (mapping (page_of a) s) (a % page_size) (omega arith)
                      (w.mapped (page_of a) (page_of-IsAligned a) ne)))
          ]
    ]
