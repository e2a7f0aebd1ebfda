-- ===== src/Runtime/Shared.antt =====
-- The instances of a process share the memories that the module imports as shared ones.
use wasmtime_mysql.Prelude.{
  ◌≡◌, ◌⊎◌, inl, inr, refl, sym, ap, subst, ◌∙◌, arith, true, List, [], ◌∷◌, Option, none, some,
  Bool-cases, Option-cases,
}
use wasmtime_mysql.Runtime.Memories.{
  Key, eq_key, contains_key, MemoryExtern, shared_memory, Embedding, Import, Defining,
  define_import, define_imports, define_imported_memories, define_shared_memories,
}
use wasmtime_mysql.Runtime.Names.{KeepsNames, eq_key→eq, some_ne_none, Has}
use wasmtime_mysql.Runtime.Defined.{IsDefined, Turn, turn, define_import-Turn}

module _ (engine : Embedding) (law : KeepsNames engine) where
  open engine use {World, MemoryType, Shared, Plain, Linker}
  open law use {named}

  same_memory :
      {o : Option (MemoryExtern Shared Plain)} {m n : Shared}
      → o ≡ some (shared_memory m)
      → o ≡ some (shared_memory n)
      → m ≡ n
  same_memory a b = cc

  -- The memories among the imports have been seen.
  abbrev AllSeen : List (Import MemoryType) → List Key → Type 0
  AllSeen [] seen = Unit {0}
  AllSeen (i ∷ is) seen = ((i.memory ≡ none) ⊎ (contains_key i.key seen ≡ true)) × AllSeen is seen

  define_imports-IsDefined :
      (is : List (Import MemoryType)) (d d' : Defining engine)
      → IsDefined engine law d
      → define_imports engine is d ≡ some d'
      → IsDefined engine law d'
        × ((k : Key) → contains_key k d.seen ≡ true → contains_key k d'.seen ≡ true)
        × AllSeen is d'.seen
  unfolding define_imports
  define_imports-IsDefined [] d d' inv e =
      let same : d ≡ d' = ground arith in
      (
        subst (IsDefined engine law) same inv,
        subst (λ x. (k : Key) → contains_key k d.seen ≡ true → contains_key k x.seen ≡ true) same
            (λ k h. h),
        tt,
      )
  define_imports-IsDefined (i ∷ is) d d' inv e =
      next (define_imports-IsDefined is) (define_import engine i d) refl e
    where
      next :
          ((d d' : Defining engine)
            → IsDefined engine law d
            → define_imports engine is d ≡ some d'
            → IsDefined engine law d'
              × ((k : Key) → contains_key k d.seen ≡ true → contains_key k d'.seen ≡ true)
              × AllSeen is d'.seen)
          → (o : Option (Defining engine)) → define_import engine i d ≡ o
          → (elim o [ none ↦ none | some d1 ↦ define_imports engine is d1 ]) ≡ some d'
          → IsDefined engine law d'
            × ((k : Key) → contains_key k d.seen ≡ true → contains_key k d'.seen ≡ true)
            × AllSeen (i ∷ is) d'.seen
      next rest none a b = absurd (ground arith)
      next rest (some d1) a b = after_turn (define_import-Turn engine law i d d1 inv a)
        where
          after_turn :
              Turn engine law i d d1
              → IsDefined engine law d'
                × ((k : Key) → contains_key k d.seen ≡ true → contains_key k d'.seen ≡ true)
                × AllSeen (i ∷ is) d'.seen
          after_turn (turn inv1 more this) =
              let (inv', more', all) = rest d1 d' inv1 b in
              (
                inv',
                λ k h. more' k (more k h),
                ((elim this [ inl n ↦ inl n | inr c ↦ inr (more' i.key c) ]), all),
              )

  -- What a thread's linker has under a name: one of the memories, or what it had.
  thread_cases :
      (memories : List (Key × Shared)) (l l' : Linker)
      → define_shared_memories engine l memories ≡ some l'
      → (k : Key)
      → ((m : Shared) × Has k m memories × (named l' k ≡ some (shared_memory m)))
        ⊎ (named l' k ≡ named l k)
  unfolding define_shared_memories
  thread_cases [] l l' e k = inr (ground arith)
  thread_cases ((j, m) ∷ memories) l l' e k =
      elim (Option-cases (engine.define l j (shared_memory m))) [
        | inl n ↦ absurd (ground arith)
        | inr (l1, n) ↦ elim (thread_cases memories l1 l' (ground arith) k) [
          | inl (m', h, g) ↦ inl (m', inr h, g)
          | inr g ↦ elim (Bool-cases (eq_key j k)) [
            | inl s ↦
                let same = eq_key→eq j k s in
                inl (
                  m,
                  inl (sym same, refl),
                  g ∙ ap (named l1) (sym same) ∙ law.defined l l1 j (shared_memory m) n,
                )
            | inr s ↦ inr (g ∙ law.kept l l1 j k (shared_memory m) n s)
          ]
        ]
      ]

  thread-Has :
      (memories : List (Key × Shared)) (l l' : Linker)
      → ((k : Key) (m m' : Shared) → Has k m memories → Has k m' memories → m ≡ m')
      → define_shared_memories engine l memories ≡ some l'
      → (k : Key) (m : Shared) → Has k m memories
      → named l' k ≡ some (shared_memory m)
  unfolding define_shared_memories
  thread-Has [] l l' one e k m h = absurd h
  thread-Has ((j, n) ∷ memories) l l' one e k m h =
      elim (Option-cases (engine.define l j (shared_memory n))) [
        | inl z ↦ absurd (ground arith)
        | inr (l1, z) ↦
            let rest : define_shared_memories engine l1 memories ≡ some l' = ground arith in
            let later =
              thread-Has memories l1 l' (λ k a b x y. one k a b (inr x) (inr y)) rest k m in
            elim h [
              | inr there ↦ later there
              | inl (ek, em) ↦ elim (thread_cases memories l1 l' rest k) [
                | inl (o, there, g) ↦
                    g ∙ ap (λ a. some (shared_memory a)) (one k o m (inr there) (inl (ek, em)))
                | inr g ↦
                    g
                    ∙ ap (named l1) ek
                    ∙ law.defined l l1 j (shared_memory n) z
                    ∙ ap (λ a. some (shared_memory a)) (sym em)
              ]
            ]
      ]

  abbrev pub IsImport : Import MemoryType → List (Import MemoryType) → Type 0
  IsImport i [] = ⊥
  IsImport i (j ∷ is) = (i ≡ j) ⊎ IsImport i is

  import_seen :
      (i : Import MemoryType) (ty : MemoryType) (is : List (Import MemoryType)) (seen : List Key)
      → AllSeen is seen
      → IsImport i is
      → i.memory ≡ some ty
      → contains_key i.key seen ≡ true
  import_seen i ty [] seen all h memory = absurd h
  import_seen i ty (j ∷ is) seen (this, all) (inr h) memory = import_seen i ty is seen all h memory
  import_seen i ty (j ∷ is) seen (this, all) (inl e) memory = elim this [
    | inl n ↦ absurd (some_ne_none memory (ap (λ a. a.memory) e ∙ n))
    | inr c ↦ ap (λ a. contains_key a.key seen) e ∙ c
  ]

  empty-IsDefined :
      (l : Linker) (w : World)
      → IsDefined engine law (record { seen = []; memories = []; linker = l; store = w })
  empty-IsDefined l w = record {
    listed = λ k m h. absurd h;
    found = λ k m h. absurd h;
    known = λ k h. absurd (ground arith);
  }

  -- Every memory that the module imports is defined for the main instance; and where a shared one was made,
  -- a thread finds the same memory under that name.
  pub imported_found :
      (is : List (Import MemoryType)) (linker thread thread' : Linker) (w : World)
      (d : Defining engine)
      → define_imported_memories engine is linker w ≡ some d
      → define_shared_memories engine thread d.memories ≡ some thread'
      → (i : Import MemoryType) (ty : MemoryType) → IsImport i is
      → i.memory ≡ some ty
      → (x : MemoryExtern Shared Plain) × (named d.linker i.key ≡ some x)
        × ((m : Shared) → x ≡ shared_memory m → named thread' i.key ≡ some (shared_memory m))
  unfolding define_imported_memories
  imported_found is linker thread thread' w d made again i ty is_import is_memory =
      let (inv, more, all) =
        define_imports-IsDefined is
          (record { seen = []; memories = []; linker = linker; store = w }) d
          (empty-IsDefined linker w) made in
      let (x, there, listed) =
        inv.known i.key (import_seen i ty is d.seen all is_import is_memory) in
      let one : (k : Key) (m m' : Shared) → Has k m d.memories → Has k m' d.memories → m ≡ m' =
        λ k m m' h h'. same_memory (inv.found k m h) (inv.found k m' h') in
      (x, there, λ m s. thread-Has d.memories thread thread' one again i.key m (listed m s))
