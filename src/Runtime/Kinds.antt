-- ===== src/Runtime/Kinds.antt =====
-- Which memories are made shared ones: those whose type, at the first import under the name, is a shared
-- one.
use wasmtime_mysql.Prelude.{
  ◌≡◌, ◌⊎◌, inl, inr, refl, sym, ap, subst, ◌∙◌, arith, Bool, true, false, List, [], ◌∷◌, Option,
  none, some, Bool-cases, Option-cases, if◌then◌else◌,
}
use wasmtime_mysql.Runtime.Memories.{
  Key, eq_key, contains_key, MemoryExtern, shared_memory, plain_memory, Embedding, Import, Defining,
  shared_made, plain_made, define_import, define_imports, define_imported_memories,
  define_shared_memories,
}
use wasmtime_mysql.Runtime.Names.{KeepsNames, eq_key→eq}
use wasmtime_mysql.Runtime.Shared.{IsImport, imported_found}

module _ (engine : Embedding) (law : KeepsNames engine) where
  open engine use {World, MemoryType, Shared, Plain, Linker}
  open law use {named}

  -- The type of the first memory that is imported under a name.
  unfoldable pub first_memory : List (Import MemoryType) → Key → Option MemoryType
  first_memory [] key = none
  first_memory (i ∷ is) key = elim i.memory [
    | none ↦ first_memory is key
    | some ty ↦ if eq_key i.key key then some ty else first_memory is key
  ]

  abbrev HasKind : Bool → MemoryExtern Shared Plain → Type 0
  HasKind true (shared_memory m) = Unit {0}
  HasKind true (plain_memory m) = ⊥
  HasKind false (shared_memory m) = ⊥
  HasKind false (plain_memory m) = Unit {0}

  data ImportStep (i : Import MemoryType) (d d1 : Defining engine) : Type 0 where
    skipped : d1 ≡ d → (i.memory ≡ none) ⊎ (contains_key i.key d.seen ≡ true) → ImportStep i d d1
    added_new :
        (ty : MemoryType) (x : MemoryExtern Shared Plain)
        → i.memory ≡ some ty
        → contains_key i.key d.seen ≡ false
        → HasKind (engine.is_shared ty) x
        → engine.define d.linker i.key x ≡ some d1.linker
        → d1.seen ≡ i.key ∷ d.seen
        → ImportStep i d d1

  module _ (i : Import MemoryType) (d : Defining engine) (ty : MemoryType)
      (is_memory : i.memory ≡ some ty) (unseen : contains_key i.key d.seen ≡ false) where
    abbrev marked : Defining engine
    marked = record d { seen = i.key ∷ d.seen }

    shared_step :
        (r : Option Shared × World) (d1 : Defining engine)
        → engine.is_shared ty ≡ true
        → shared_made engine i.key marked r ≡ some d1
        → ImportStep i d d1
    shared_step (none, w) d1 s e = absurd (ground arith)
    shared_step (some m, w) d1 s e =
        elim (Option-cases (engine.define d.linker i.key (shared_memory m))) [
          | inl n ↦ absurd (ground arith)
          | inr (l, n) ↦
              added_new ty (shared_memory m) is_memory unseen (rw s tt) (ground arith)
                (ground arith)
        ]

    plain_step :
        (r : Option Plain × World) (d1 : Defining engine)
        → engine.is_shared ty ≡ false
        → plain_made engine i.key marked r ≡ some d1
        → ImportStep i d d1
    plain_step (none, w) d1 s e = absurd (ground arith)
    plain_step (some m, w) d1 s e =
        elim (Option-cases (engine.define d.linker i.key (plain_memory m))) [
          | inl n ↦ absurd (ground arith)
          | inr (l, n) ↦
              added_new ty (plain_memory m) is_memory unseen (rw s tt) (ground arith) (ground arith)
        ]

  define_import_step :
      (i : Import MemoryType) (d d1 : Defining engine)
      → define_import engine i d ≡ some d1
      → ImportStep i d d1
  unfolding define_import
  define_import_step i d d1 e = elim (Option-cases i.memory) [
    | inl n ↦ skipped (ground arith) (inl n)
    | inr (ty, n) ↦ elim (Bool-cases (contains_key i.key d.seen)) [
      | inl b ↦ skipped (ground arith) (inr b)
      | inr b ↦ elim (Bool-cases (engine.is_shared ty)) [
        | inl s ↦ shared_step i d ty n b (engine.new_shared ty d.store) d1 s (ground arith)
        | inr s ↦ plain_step i d ty n b (engine.new_memory ty d.store) d1 s (ground arith)
      ]
    ]
  ]

  -- Behind the loop: what a name stood for, where it was seen before, and otherwise a memory of the
  -- kind that its first import asks for.
  abbrev Ends : List (Import MemoryType) → Defining engine → Defining engine → Key → Type 0
  Ends is d d' key =
      (contains_key key d.seen ≡ true → named d'.linker key ≡ named d.linker key)
      × ((ty : MemoryType)
          → contains_key key d.seen ≡ false
          → first_memory is key ≡ some ty
          → (x : MemoryExtern Shared Plain) × (named d'.linker key ≡ some x)
            × HasKind (engine.is_shared ty) x)

  distinct :
      (j k : Key) (seen : List Key)
      → contains_key j seen ≡ true
      → contains_key k seen ≡ false
      → eq_key j k ≡ false
  distinct j k seen h u = elim (Bool-cases (eq_key j k)) [
    | inr n ↦ n
    | inl e ↦ let same = ap (λ x. contains_key x seen) (eq_key→eq j k e) in absurd (ground arith)
  ]

  distinct_sym :
      (j k : Key) (seen : List Key)
      → contains_key j seen ≡ false
      → contains_key k seen ≡ true
      → eq_key j k ≡ false
  distinct_sym j k seen u h = elim (Bool-cases (eq_key j k)) [
    | inr n ↦ n
    | inl e ↦ let same = ap (λ x. contains_key x seen) (eq_key→eq j k e) in absurd (ground arith)
  ]

  skipped_end :
      (i : Import MemoryType) (is : List (Import MemoryType)) (d d' : Defining engine) (key : Key)
      → (i.memory ≡ none) ⊎ (contains_key i.key d.seen ≡ true)
      → Ends is d d' key
      → Ends (i ∷ is) d d' key
  unfolding first_memory
  skipped_end i is d d' key (inl n) (old, new) = (old, λ ty u e. new ty u (ground arith))
  skipped_end i is d d' key (inr h) (old, new) = (
    old,
    λ ty u e.
        let other = distinct i.key key d.seen h u in
        elim (Option-cases i.memory) [
          | inl n ↦ new ty u (ground arith)
          | inr (t, n) ↦ new ty u (ground arith)
        ],
  )

  added_end :
      (i : Import MemoryType) (is : List (Import MemoryType)) (d d1 d' : Defining engine)
      (key : Key) (ty : MemoryType) (x : MemoryExtern Shared Plain)
      → i.memory ≡ some ty
      → contains_key i.key d.seen ≡ false
      → HasKind (engine.is_shared ty) x
      → engine.define d.linker i.key x ≡ some d1.linker
      → d1.seen ≡ i.key ∷ d.seen
      → Ends is d1 d' key
      → Ends (i ∷ is) d d' key
  unfolding first_memory
  added_end i is d d1 d' key ty x memory unseen kind defined seen (old, new) = (
    λ h.
        let other = distinct_sym i.key key d.seen unseen h in
        old (rw seen (ground arith)) ∙ law.kept d.linker d1.linker i.key key x defined other,
    λ ty' u e. elim (Bool-cases (eq_key i.key key)) [
      | inl b ↦
          let same_ty : ty ≡ ty' = ground arith in
          let there = ap (named d1.linker) (sym (eq_key→eq i.key key b)) in
          (
            x,
            old (rw seen (ground arith)) ∙ there ∙ law.defined d.linker d1.linker i.key x defined,
            subst (λ t. HasKind (engine.is_shared t) x) same_ty kind,
          )
      | inr b ↦ new ty' (rw seen (ground arith)) (ground arith)
    ],
  )

  step_end :
      (i : Import MemoryType) (is : List (Import MemoryType)) (d d1 d' : Defining engine)
      (key : Key)
      → ImportStep i d d1
      → Ends is d1 d' key
      → Ends (i ∷ is) d d' key
  step_end i is d d1 d' key (skipped same why) h =
      skipped_end i is d d' key why (subst (λ a. Ends is a d' key) same h)
  step_end i is d d1 d' key (added_new ty x memory unseen kind defined seen) h =
      added_end i is d d1 d' key ty x memory unseen kind defined seen h

  define_imports_end :
      (is : List (Import MemoryType)) (d d' : Defining engine) (key : Key)
      → define_imports engine is d ≡ some d'
      → Ends is d d' key
  unfolding define_imports first_memory
  define_imports_end [] d d' key e =
      let same : d ≡ d' = ground arith in
      (λ h. ap (λ a. named a.linker key) (sym same), λ ty u f. absurd (ground arith))
  define_imports_end (i ∷ is) d d' key e = elim (Option-cases (define_import engine i d)) [
    | inl n ↦ absurd (ground arith)
    | inr (d1, a) ↦
        step_end i is d d1 d' key (define_import_step i d d1 a)
          (define_imports_end is d1 d' key (ground arith))
  ]

  memory_imported :
      (is : List (Import MemoryType)) (key : Key) (ty : MemoryType)
      → first_memory is key ≡ some ty
      → (i : Import MemoryType) × IsImport engine law i is × (i.memory ≡ some ty) × (i.key ≡ key)
  unfolding first_memory
  memory_imported [] key ty e = absurd (ground arith)
  memory_imported (i ∷ is) key ty e = elim (Option-cases i.memory) [
    | inl n ↦
        let (j, member, memory, same) = memory_imported is key ty (ground arith) in
        (j, inr member, memory, same)
    | inr (t, n) ↦ elim (Bool-cases (eq_key i.key key)) [
      | inl b ↦ (i, inl refl, ground arith, eq_key→eq i.key key b)
      | inr b ↦
          let (j, member, memory, same) = memory_imported is key ty (ground arith) in
          (j, inr member, memory, same)
    ]
  ]

  same_extern :
      {o : Option (MemoryExtern Shared Plain)} {x y : MemoryExtern Shared Plain}
      → o ≡ some x
      → o ≡ some y
      → x ≡ y
  same_extern a b = cc

  -- What the main instance and a thread find under a name, where it is to be a shared memory or not.
  unfoldable pub Finds : Bool → Linker → Linker → Key → Type 0
  Finds true main thread key =
      (m : Shared) × (named main key ≡ some (shared_memory m))
      × (named thread key ≡ some (shared_memory m))
  Finds false main thread key = (m : Plain) × (named main key ≡ some (plain_memory m))

  finds :
      (b : Bool) (x : MemoryExtern Shared Plain) (main thread : Linker) (key : Key)
      → HasKind b x
      → named main key ≡ some x
      → ((m : Shared) → x ≡ shared_memory m → named thread key ≡ some (shared_memory m))
      → Finds b main thread key
  unfolding Finds
  finds true (shared_memory m) main thread key kind e again = (m, e, again m refl)
  finds true (plain_memory m) main thread key kind e again = absurd kind
  finds false (shared_memory m) main thread key kind e again = absurd kind
  finds false (plain_memory m) main thread key kind e again = (m, e)

  -- Let `ty` be the type of the first memory that the module imports under a name. Where `ty` is that of a
  -- shared memory, the main instance finds a shared memory under the name, and the instance of a thread
  -- finds the same one, whatever its linker had before; where it is not, the main instance finds a plain
  -- memory.
  pub define_shared_memories-define_imported_memories :
      (is : List (Import MemoryType)) (linker thread thread' : Linker) (w : World)
      (d : Defining engine)
      → define_imported_memories engine is linker w ≡ some d
      → define_shared_memories engine thread d.memories ≡ some thread'
      → (key : Key) (ty : MemoryType) → first_memory is key ≡ some ty
      → Finds (engine.is_shared ty) d.linker thread' key
  unfolding define_imported_memories
  define_shared_memories-define_imported_memories is linker thread thread' w d built again key ty
        first =
      let (i, member, memory, same) = memory_imported is key ty first in
      let (y, there, shares) =
        imported_found engine law is linker thread thread' w d
          (unfold define_imported_memories in built) again i ty member memory in
      let (x, here, kind) = (define_imports_end is _ d key built).1 ty refl first in
      let found_y = ap (named d.linker) (sym same) ∙ there in
      finds (engine.is_shared ty) x d.linker thread' key kind here
        (λ m s. ap (named thread') (sym same) ∙ shares m (same_extern found_y here ∙ s))
