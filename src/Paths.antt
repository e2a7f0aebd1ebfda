-- ===== src/Paths.antt =====
-- src/host_files.rs: guest paths, the preopens, and the host path that a guest path resolves to.
-- Texts are their bytes. A `PathBuf` is its list of components, by which Rust compares paths.
pub mod Text
pub mod Split
pub mod Normal
pub mod Confined
pub mod Covers
pub mod Longest
use wasmtime_mysql.Prelude.{
  ℕ, ◌+◌, suc, Bool, true, false, not, ◌&&◌, ◌||◌, List, [], ◌∷◌, ◌++◌, reverse,
}
use wasmtime_mysql.Prelude.{◌==◌, ltb, if◌then◌else◌, Option, none, some, length, drop, get_elem?}
use wasmtime_mysql.Prelude.{ℤ, Result, ok, err, ◌>>=◌}
use wasmtime_mysql.Errno.{enoent, enotcapable, einval}
use wasmtime_mysql.Guest.{Bytes}
use Text.{slash, dot, dot_dot, eq_text, is_empty, starts_with, byte_is, split, join}

-- The arms of the `match part`.
pub data Part : Type 0 where
  skip up name : Part

unfoldable pub part_kind : Bytes → Part
part_kind part =
    if is_empty part || eq_text part dot then skip else if eq_text part dot_dot then up else name

-- The loop over the parts; the stack holds the last part first.
unfoldable pub walk : List Bytes → List Bytes → Result (List Bytes)
walk [] parts = ok (reverse parts)
walk (part ∷ rest) parts = elim (part_kind part) [
  | skip ↦ walk rest parts
  | up ↦ elim parts [ [] ↦ err enotcapable | _ ∷ below ↦ walk rest below ]
  | name ↦ walk rest (part ∷ parts)
]

abbrev pub absolute : Bytes → Bool
absolute path = starts_with path (slash ∷ [])

abbrev pub render : Bool → List Bytes → Bytes
render is_absolute parts =
    let joined = join parts in
    if is_absolute
    then (if is_empty joined then slash ∷ [] else slash ∷ joined)
    else if is_empty joined
    then dot
    else joined

unfoldable pub normalize_guest_path : Bytes → Result Bytes
unfolding walk
normalize_guest_path path =
    if is_empty path
    then err enoent
    else (do parts ← walk (split path) []; ok (render (absolute path) parts))

-- `std::path::Component`
pub data Component : Type 0 where
  root_dir cur_dir parent_dir : Component
  normal : Bytes → Component

abbrev pub PathBuf : Type 0
PathBuf = List Component

-- `PathBuf::push` of one component that holds no slash.
abbrev pub component_of : Bytes → Component
component_of c = if eq_text c dot_dot then parent_dir else normal c

-- The components that the loop of `join_suffix` pushes.
abbrev pub pushed : List Bytes → List Component
pushed [] = []
pushed (c ∷ cs) =
    let rest = pushed cs in
    if not (is_empty c) && not (eq_text c dot) then component_of c ∷ rest else rest

unfoldable pub join_suffix : PathBuf → Bytes → PathBuf
join_suffix root suffix = root ++ pushed (split suffix)

pub record PreopenMapping : Type 0 where
  pub guest : Bytes
  pub host : PathBuf

-- `normalized.strip_prefix('/').unwrap_or(&normalized)`
abbrev pub strip_slash : Bytes → Bytes
strip_slash [] = []
strip_slash (b ∷ s) = if b == slash then s else b ∷ s

-- The suffix that one turn of the loop of `resolve` joins, or nothing where it goes on.
unfoldable pub suffix_for : Bytes → Bytes → Option Bytes
suffix_for guest normalized =
    if eq_text guest dot && not (absolute normalized)
    then some normalized
    else if eq_text guest (slash ∷ [])
    then some (strip_slash normalized)
    else if eq_text normalized guest
    then some []
    else if starts_with normalized guest && byte_is (get_elem? normalized (length guest)) slash
    then some (drop (suc (length guest)) normalized)
    else none

unfoldable pub resolve_in : List PreopenMapping → Bytes → Result PathBuf
resolve_in [] normalized = err enotcapable
resolve_in (preopen ∷ preopens) normalized = elim (suffix_for preopen.guest normalized) [
  | some suffix ↦ ok (join_suffix preopen.host suffix)
  | none ↦ resolve_in preopens normalized
]

unfoldable pub resolve : List PreopenMapping → Bytes → Result PathBuf
unfolding normalize_guest_path resolve_in suffix_for join_suffix
resolve preopens guest_path = do
  normalized ← normalize_guest_path guest_path
  resolve_in preopens normalized

-- `Path::parent`: nothing for a root and for the empty path.
abbrev pub parent : PathBuf → Option PathBuf
parent [] = none
parent (root_dir ∷ []) = none
parent (c ∷ []) = some []
parent (c ∷ d ∷ cs) = elim (parent (d ∷ cs)) [ none ↦ some (c ∷ []) | some p ↦ some (c ∷ p) ]

abbrev pub eq_component : Component → Component → Bool
eq_component root_dir root_dir = true
eq_component cur_dir cur_dir = true
eq_component parent_dir parent_dir = true
eq_component (normal a) (normal b) = eq_text a b
eq_component _ _ = false

-- `Path::starts_with`, by components.
abbrev pub path_starts_with : PathBuf → PathBuf → Bool
path_starts_with p [] = true
path_starts_with [] (c ∷ cs) = false
path_starts_with (d ∷ ds) (c ∷ cs) = eq_component d c && path_starts_with ds cs

abbrev pub any_host : List PreopenMapping → PathBuf → Bool
any_host [] p = false
any_host (preopen ∷ preopens) p = path_starts_with p preopen.host || any_host preopens p

unfoldable pub resolve_parent : List PreopenMapping → Bytes → Result PathBuf
resolve_parent preopens guest_path = do
  path ← resolve preopens guest_path
  elim (parent path) [
    | none ↦ err einval
    | some p ↦ if any_host preopens p then ok p else err enotcapable
  ]

-- A stable sort by falling length of the guest path.
abbrev pub insert_sorted : PreopenMapping → List PreopenMapping → List PreopenMapping
insert_sorted p [] = p ∷ []
insert_sorted p (q ∷ qs) =
    if ltb (length p.guest) (length q.guest) then q ∷ insert_sorted p qs else p ∷ q ∷ qs

unfoldable pub sort_preopens : List PreopenMapping → List PreopenMapping
sort_preopens [] = []
sort_preopens (p ∷ ps) = insert_sorted p (sort_preopens ps)
