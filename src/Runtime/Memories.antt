-- ===== src/Runtime/Memories.antt =====
-- src/main.rs: the memories that the module imports. `run` makes them and defines them for the main
-- instance; a thread's instance gets the shared ones again.
use wasmtime_mysql.Prelude.{
  Bool, false, ◌&&◌, ◌||◌, List, [], ◌∷◌, ◌++◌, Option, none, some, if◌then◌else◌,
}
use wasmtime_mysql.Guest.{Bytes}
use wasmtime_mysql.Paths.Text.{eq_text}

abbrev pub Key : Type 0
Key = Bytes × Bytes

abbrev pub eq_key : Key → Key → Bool
eq_key (m, n) (m', n') = eq_text m m' && eq_text n n'

abbrev pub contains_key : Key → List Key → Bool
contains_key k [] = false
contains_key k (j ∷ js) = eq_key j k || contains_key k js

pub data MemoryExtern (Shared Plain : Type 0) : Type 0 where
  shared_memory : Shared → MemoryExtern Shared Plain
  plain_memory : Plain → MemoryExtern Shared Plain

-- What the source uses of the engine; `World` is the store. Nothing stands for an error.
pub record Embedding : Type 1 where
  pub World : Type 0
  pub MemoryType : Type 0
  pub Shared : Type 0
  pub Plain : Type 0
  pub Linker : Type 0
  pub is_shared : MemoryType → Bool
  pub new_shared : MemoryType → World → Option Shared × World
  pub new_memory : MemoryType → World → Option Plain × World
  pub define : Linker → Key → MemoryExtern Shared Plain → Option Linker

-- An import of the module; nothing for one that is no memory.
pub record Import (MemoryType : Type 0) : Type 0 where
  pub key : Key
  pub memory : Option MemoryType

module _ (engine : Embedding) where
  open engine use {World, MemoryType, Shared, Plain, Linker}

  -- The variables of the loop.
  pub record Defining : Type 0 where
    pub seen : List Key
    pub memories : List (Key × Shared)
    pub linker : Linker
    pub store : World

  abbrev pub shared_made : Key → Defining → Option Shared × World → Option Defining
  shared_made key d (none, w) = none
  shared_made key d (some memory, w) = elim (engine.define d.linker key (shared_memory memory)) [
    | none ↦ none
    | some linker ↦
        some
          (record d { linker = linker; store = w; memories = d.memories ++ ((key, memory) ∷ []) })
  ]

  abbrev pub plain_made : Key → Defining → Option Plain × World → Option Defining
  plain_made key d (none, w) = none
  plain_made key d (some memory, w) = elim (engine.define d.linker key (plain_memory memory)) [
    | none ↦ none
    | some linker ↦ some (record d { linker = linker; store = w })
  ]

  abbrev pub define_new : Key → MemoryType → Defining → Option Defining
  define_new key memory_ty d =
      if engine.is_shared memory_ty
      then shared_made key d (engine.new_shared memory_ty d.store)
      else plain_made key d (engine.new_memory memory_ty d.store)

  unfoldable pub define_import : Import MemoryType → Defining → Option Defining
  define_import i d = elim i.memory [
    | none ↦ some d
    | some memory_ty ↦
        if contains_key i.key d.seen
        then some d
        else define_new i.key memory_ty (record d { seen = i.key ∷ d.seen })
  ]

  unfoldable pub define_imports : List (Import MemoryType) → Defining → Option Defining
  define_imports [] d = some d
  define_imports (i ∷ is) d = elim (define_import i d) [
    | none ↦ none
    | some d' ↦ define_imports is d'
  ]

  unfoldable pub define_imported_memories :
      List (Import MemoryType) → Linker → World → Option Defining
  define_imported_memories is linker w =
      define_imports is (record { seen = []; memories = []; linker = linker; store = w })

  -- For a thread.
  unfoldable pub define_shared_memories : Linker → List (Key × Shared) → Option Linker
  define_shared_memories linker [] = some linker
  define_shared_memories linker ((key, memory) ∷ memories) =
      elim (engine.define linker key (shared_memory memory)) [
        | none ↦ none
        | some linker' ↦ define_shared_memories linker' memories
      ]
