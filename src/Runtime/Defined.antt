-- ===== src/Runtime/Defined.antt =====
-- The loop over the imports: what was seen is defined for the main instance.
use wasmtime_mysql.Prelude.{
  ◌≡◌, ◌⊎◌, inl, inr, refl, sym, ap, subst, ◌∙◌, arith, true, false, ◌||◌, List, [], ◌∷◌, ◌++◌,
  Option, none, some, Bool-cases, Option-cases,
}
use wasmtime_mysql.Runtime.Memories.{
  Key, eq_key, contains_key, MemoryExtern, shared_memory, plain_memory, Embedding, Import, Defining,
  shared_made, plain_made, define_import,
}
use wasmtime_mysql.Runtime.Names.{
  KeepsNames, eq_key_refl, eq_key→eq, Has, Has-append, Has-append_self, Has-append_cases,
}

module _ (engine : Embedding) (law : KeepsNames engine) where
  open engine use {World, MemoryType, Shared, Plain, Linker}
  open law use {named}

  -- Behind some turns of the loop: what was returned is defined, and what was seen is defined, and
  -- returned where it is shared.
  pub record IsDefined (d : Defining engine) : Type 0 where
    pub listed : (k : Key) (m : Shared) → Has k m d.memories → contains_key k d.seen ≡ true
    pub found :
        (k : Key) (m : Shared) → Has k m d.memories → named d.linker k ≡ some (shared_memory m)
    pub known :
        (k : Key)
        → contains_key k d.seen ≡ true
        → (x : MemoryExtern Shared Plain) × (named d.linker k ≡ some x)
          × ((m : Shared) → x ≡ shared_memory m → Has k m d.memories)

  module _ (d : Defining engine) (key : Key) (x : MemoryExtern Shared Plain) (linker : Linker)
      (store : World) (memories : List (Key × Shared)) (inv : IsDefined d)
      (unseen : contains_key key d.seen ≡ false) (done : engine.define d.linker key x ≡ some linker)
      (grown : (k : Key) (m : Shared)
        → Has k m memories
        → Has k m d.memories ⊎ ((k ≡ key) × (x ≡ shared_memory m)))
      (kept_all : (k : Key) (m : Shared) → Has k m d.memories → Has k m memories)
      (entered : (m : Shared) → x ≡ shared_memory m → Has key m memories) where
    other_key : (k : Key) → contains_key k d.seen ≡ true → eq_key key k ≡ false
    other_key k h = elim (Bool-cases (eq_key key k)) [
      | inr n ↦ n
      | inl e ↦
          let same = ap (λ k. contains_key k d.seen) (eq_key→eq key k e) in absurd (ground arith)
    ]

    added-IsDefined :
        IsDefined
          (record { seen = key ∷ d.seen; memories = memories; linker = linker; store = store })
    added-IsDefined = record {
      listed = λ k m h. elim (grown k m h) [
        | inl old ↦ rw (inv.listed k m old) (ground arith)
        | inr (e, s) ↦
            subst (λ j. (eq_key key j || contains_key j d.seen) ≡ true) (sym e)
              (rw (eq_key_refl key) refl)
      ];
      found = λ k m h. elim (grown k m h) [
        | inl old ↦
            law.kept d.linker linker key k x done (other_key k (inv.listed k m old))
            ∙ inv.found k m old
        | inr (e, s) ↦ ap (named linker) e ∙ law.defined d.linker linker key x done ∙ ap some s
      ];
      known = λ k h. elim (Bool-cases (eq_key key k)) [
        | inl e ↦
            let same = eq_key→eq key k e in
            (
              x,
              ap (named linker) (sym same) ∙ law.defined d.linker linker key x done,
              λ m s. subst (λ j. Has j m memories) same (entered m s),
            )
        | inr n ↦
            let (y, there, all) = inv.known k (ground arith) in
            (y, law.kept d.linker linker key k x done n ∙ there, λ m s. kept_all k m (all m s))
      ];
    }

  -- A turn of the loop keeps the names that were seen, and has seen the import if it is a memory.
  pub data Turn (i : Import MemoryType) (d d' : Defining engine) : Type 0 where
    turn :
        IsDefined d'
        → ((k : Key) → contains_key k d.seen ≡ true → contains_key k d'.seen ≡ true)
        → ((i.memory ≡ none) ⊎ (contains_key i.key d'.seen ≡ true))
        → Turn i d d'

  seen_more :
      (key : Key) (js : List Key)
      → ((k : Key) → contains_key k js ≡ true → contains_key k (key ∷ js) ≡ true)
        × (contains_key key (key ∷ js) ≡ true)
  seen_more key js = (λ k h. ground arith, rw (eq_key_refl key) refl)

  shared_inj :
      {m n : Shared}
      → ◌≡◌ {A = MemoryExtern Shared Plain} (shared_memory m) (shared_memory n)
      → m ≡ n
  shared_inj e = cc

  module _ (i : Import MemoryType) (d : Defining engine) (inv : IsDefined d)
      (unseen : contains_key i.key d.seen ≡ false) where
    abbrev marked : Defining engine
    marked = record d { seen = i.key ∷ d.seen }

    shared_made-Turn :
        (r : Option Shared × World) (d' : Defining engine)
        → shared_made engine i.key marked r ≡ some d'
        → Turn i d d'
    shared_made-Turn (none, w) d' e = absurd (ground arith)
    shared_made-Turn (some m, w) d' e =
        elim (Option-cases (engine.define d.linker i.key (shared_memory m))) [
          | inl n ↦ absurd (ground arith)
          | inr (l, n) ↦
              let memories = d.memories ++ ((i.key, m) ∷ []) in
              let next : Defining engine = record {
                seen = i.key ∷ d.seen;
                memories = memories;
                linker = l;
                store = w;
              } in
              let same : next ≡ d' = ground arith in
              let (more, this) = seen_more i.key d.seen in
              subst (Turn i d) same (
                turn
                  (added-IsDefined d i.key (shared_memory m) l w memories inv unseen n
                    (λ k n h. elim (Has-append_cases k i.key n m d.memories h) [
                      | inl a ↦ inl a
                      | inr (e, s) ↦ inr (e, ap shared_memory (sym s))
                    ])
                    (λ k n h. Has-append k n d.memories ((i.key, m) ∷ []) h)
                    (λ n s.
                      subst (λ o. Has i.key o memories) (shared_inj s)
                        (Has-append_self i.key m d.memories)))
                  more (inr this))
        ]

    plain_made-Turn :
        (r : Option Plain × World) (d' : Defining engine)
        → plain_made engine i.key marked r ≡ some d'
        → Turn i d d'
    plain_made-Turn (none, w) d' e = absurd (ground arith)
    plain_made-Turn (some m, w) d' e =
        elim (Option-cases (engine.define d.linker i.key (plain_memory m))) [
          | inl n ↦ absurd (ground arith)
          | inr (l, n) ↦
              let next : Defining engine = record {
                seen = i.key ∷ d.seen;
                memories = d.memories;
                linker = l;
                store = w;
              } in
              let same : next ≡ d' = ground arith in
              let (more, this) = seen_more i.key d.seen in
              subst (Turn i d) same (
                turn
                  (added-IsDefined d i.key (plain_memory m) l w d.memories inv unseen n
                    (λ k n h. inl h) (λ k n h. h) (λ n s. absurd (ground (arith, s))))
                  more (inr this))
        ]

  pub define_import-Turn :
      (i : Import MemoryType) (d d' : Defining engine)
      → IsDefined d
      → define_import engine i d ≡ some d'
      → Turn i d d'
  unfolding define_import
  define_import-Turn i d d' inv e = elim (Option-cases i.memory) [
    | inl n ↦
        let same : d ≡ d' = ground arith in subst (Turn i d) same (turn inv (λ k h. h) (inl n))
    | inr (ty, n) ↦ elim (Bool-cases (contains_key i.key d.seen)) [
      | inl b ↦
          let same : d ≡ d' = ground arith in subst (Turn i d) same (turn inv (λ k h. h) (inr b))
      | inr b ↦ elim (Bool-cases (engine.is_shared ty)) [
        | inl s ↦ shared_made-Turn i d inv b (engine.new_shared ty d.store) d' (ground arith)
        | inr s ↦ plain_made-Turn i d inv b (engine.new_memory ty d.store) d' (ground arith)
      ]
    ]
  ]
