-- ===== src/Paths/Normal.antt =====
-- What a normalized guest path looks like, and that normalizing it again changes nothing.
use mathlib.Core.List.{reverse-cons, append_assoc, append-nil}
use wasmtime_mysql.Prelude.{
  ℕ, Bool, true, false, ◌≡◌, refl, sym, subst, ◌∙◌, ap, ◌⊎◌, List, [], ◌∷◌, ◌++◌, reverse, All,
  All-map, All-reverse, arith, Bool-cases, inl, inr, ◌==◌, if◌then◌else◌,
}
use wasmtime_mysql.Prelude.{ℤ, ok, err, bind_ok, bind_err}
use wasmtime_mysql.Errno.{enoent, enotcapable}
use wasmtime_mysql.Guest.{Bytes}
use wasmtime_mysql.Paths.Text.{slash, dot, is_empty, split, join}
use wasmtime_mysql.Paths.Split.{NoSlash, split-join, split-All-NoSlash}
use wasmtime_mysql.Paths.{
  Part, skip, up, name, part_kind, walk, absolute, render, normalize_guest_path,
}

-- A proper name: not empty, neither "." nor "..", and without a slash.
abbrev pub IsName : Bytes → Type 0
IsName p = (part_kind p ≡ name) × NoSlash p

part_cases : (k : Part) → (k ≡ skip) ⊎ (k ≡ up) ⊎ (k ≡ name)
part_cases skip = inl refl
part_cases up = inr (inl refl)
part_cases name = inr (inr refl)

-- One turn of the loop, by the kind of the part.
walk_skip :
    (part : Bytes) (parts stack : List Bytes)
    → part_kind part ≡ skip
    → walk (part ∷ parts) stack ≡ walk parts stack
unfolding walk
walk_skip part parts stack k = ground arith

walk_up :
    (part p : Bytes) (parts stack : List Bytes)
    → part_kind part ≡ up
    → (walk (part ∷ parts) [] ≡ err enotcapable)
      × (walk (part ∷ parts) (p ∷ stack) ≡ walk parts stack)
unfolding walk
walk_up part p parts stack k = (ground arith, ground arith)

walk_name :
    (part : Bytes) (parts stack : List Bytes)
    → part_kind part ≡ name
    → walk (part ∷ parts) stack ≡ walk parts (part ∷ stack)
unfolding walk
walk_name part parts stack k = ground arith

-- The loop keeps only proper names.
walk-All-IsName :
    (parts stack : List Bytes) {names : List Bytes}
    → All NoSlash parts
    → All IsName stack
    → walk parts stack ≡ ok names
    → All IsName names
unfolding walk
walk-All-IsName [] stack hp hs e = subst (All IsName) (cc) (All-reverse IsName stack hs)
walk-All-IsName (part ∷ parts) [] hp hs e = elim (part_cases (part_kind part)) [
  | inl k ↦ walk-All-IsName parts [] hp.1 hs (sym (walk_skip part parts [] k) ∙ e)
  | inr (inr k) ↦
      walk-All-IsName parts (part ∷ []) hp.1 ((k, hp.0), hs) (sym (walk_name part parts [] k) ∙ e)
  | inr (inl k) ↦ absurd (cc ((walk_up part [] parts [] k).0))
]
walk-All-IsName (part ∷ parts) (p ∷ stack) hp hs e = elim (part_cases (part_kind part)) [
  | inl k ↦ walk-All-IsName parts (p ∷ stack) hp.1 hs (sym (walk_skip part parts (p ∷ stack) k) ∙ e)
  | inr (inr k) ↦
      walk-All-IsName parts (part ∷ (p ∷ stack)) hp.1 ((k, hp.0), hs)
        (sym (walk_name part parts (p ∷ stack) k) ∙ e)
  | inr (inl k) ↦ walk-All-IsName parts stack hp.1 hs.1 (sym (walk_up part p parts stack k).1 ∙ e)
]

-- On proper names the loop does nothing.
walk_names :
    (names stack : List Bytes) → All IsName names → walk names stack ≡ ok (reverse stack ++ names)
unfolding walk
walk_names [] stack h = rw append-nil
walk_names (n ∷ names) stack ((h, _), hs) =
    walk_name n names stack h
    ∙ (walk_names names (n ∷ stack) hs ∙ rw (reverse-cons n stack, append_assoc))

-- The parts of a normalized path are proper names, behind a slash or not, or it is "/" or ".".
abbrev pub IsNormal : Bool → Bytes → Type 0
IsNormal is_absolute n = (names : List Bytes) × (n ≡ render is_absolute names) × All IsName names

normalize_guest_path-walk :
    (path n : Bytes)
    → normalize_guest_path path ≡ ok n
    → (names : List Bytes) × (walk (split path) [] ≡ ok names) × (n ≡ render (absolute path) names)
unfolding normalize_guest_path
normalize_guest_path-walk path n h = elim (Bool-cases (is_empty path)) [
  | inl e ↦ absurd (cc (rw (e, normalize_guest_path) at h))
  | inr e ↦ let (names, w, r) = bind_ok (walk (split path) []) _ (rw e at h) in (names, w, cc r)
]

pub normalize_guest_path-IsNormal :
    (path n : Bytes) → normalize_guest_path path ≡ ok n → IsNormal (absolute path) n
normalize_guest_path-IsNormal path n h =
    let (names, w, r) = normalize_guest_path-walk path n h in
    (names, r, walk-All-IsName (split path) [] (split-All-NoSlash path) tt w)

not_name : part_kind [] ≡ name → skip ≡ name
unfolding part_kind
not_name k = k

-- A path of names begins with a byte that is no slash.
join_head :
    (p : Bytes) (ps : List Bytes)
    → IsName p
    → (c : ℕ) × (cs : Bytes) × (join (p ∷ ps) ≡ c ∷ cs) × ((c == slash) ≡ false)
join_head [] ps (k, _) = absurd (cc (not_name k))
join_head (c ∷ cs) [] (_, h) = (c, cs, refl, h.0)
join_head (c ∷ cs) (q ∷ ps) (_, h) = (c, cs ++ (slash ∷ join (q ∷ ps)), refl, h.0)

walk-join :
    (p : Bytes) (ps : List Bytes)
    → All IsName (p ∷ ps)
    → walk (split (join (p ∷ ps))) [] ≡ ok (p ∷ ps)
walk-join p ps h =
    rw (split-join p ps (All-map IsName NoSlash (p ∷ ps) (λ _ n. n.1) h)) (walk_names (p ∷ ps) [] h)

pub render_joined :
    (b : Bool) (p : Bytes) (ps : List Bytes)
    → All IsName (p ∷ ps)
    → render b (p ∷ ps) ≡ (if b then slash ∷ join (p ∷ ps) else join (p ∷ ps))
render_joined b p ps h = let (c, cs, e, _) = join_head p ps h.0 in rw e

normalize-joined_absolute :
    (p : Bytes) (ps : List Bytes)
    → All IsName (p ∷ ps)
    → normalize_guest_path (slash ∷ join (p ∷ ps)) ≡ ok (slash ∷ join (p ∷ ps))
unfolding normalize_guest_path part_kind
normalize-joined_absolute p ps h = rw (walk-join p ps h) (ap ok (render_joined true p ps h))

normalize_relative :
    (c : ℕ) (cs : Bytes) (names : List Bytes)
    → (c == slash) ≡ false
    → walk (split (c ∷ cs)) [] ≡ ok names
    → render false names ≡ c ∷ cs
    → normalize_guest_path (c ∷ cs) ≡ ok (c ∷ cs)
unfolding normalize_guest_path
normalize_relative c cs names n w r = rw (w, n) (ap ok r)

normalize-joined_relative :
    (p : Bytes) (ps : List Bytes)
    → All IsName (p ∷ ps)
    → normalize_guest_path (join (p ∷ ps)) ≡ ok (join (p ∷ ps))
normalize-joined_relative p ps h =
    let (c, cs, e, n) = join_head p ps h.0 in
    rw e (
      normalize_relative c cs (p ∷ ps) n (rw e at (walk-join p ps h))
        (render_joined false p ps h ∙ e))

normalize-render :
    (b : Bool) (names : List Bytes)
    → All IsName names
    → normalize_guest_path (render b names) ≡ ok (render b names)
unfolding part_kind
normalize-render true [] h = unfold normalize_guest_path in refl
normalize-render false [] h = unfold normalize_guest_path in refl
normalize-render true (p ∷ ps) h = rw (render_joined true p ps h) (normalize-joined_absolute p ps h)
normalize-render false (p ∷ ps) h =
    rw (render_joined false p ps h) (normalize-joined_relative p ps h)

-- The loop fails only with ENOTCAPABLE.
walk-error : (parts stack : List Bytes) (e : ℤ) → walk parts stack ≡ err e → e ≡ enotcapable
unfolding walk
walk-error [] stack e h = cc
walk-error (part ∷ parts) [] e h = elim (part_cases (part_kind part)) [
  | inl k ↦ walk-error parts [] e (sym (walk_skip part parts [] k) ∙ h)
  | inr (inl k) ↦ cc ((walk_up part [] parts [] k).0)
  | inr (inr k) ↦ walk-error parts (part ∷ []) e (sym (walk_name part parts [] k) ∙ h)
]
walk-error (part ∷ parts) (p ∷ stack) e h = elim (part_cases (part_kind part)) [
  | inl k ↦ walk-error parts (p ∷ stack) e (sym (walk_skip part parts (p ∷ stack) k) ∙ h)
  | inr (inl k) ↦ walk-error parts stack e (sym (walk_up part p parts stack k).1 ∙ h)
  | inr (inr k) ↦
      walk-error parts (part ∷ p ∷ stack) e (sym (walk_name part parts (p ∷ stack) k) ∙ h)
]

-- An empty path is answered ENOENT, and one that climbs above its start ENOTCAPABLE.
pub normalize_guest_path-error :
    (path : Bytes) (e : ℤ)
    → normalize_guest_path path ≡ err e
    → ((e ≡ enoent) × (path ≡ [])) ⊎ (e ≡ enotcapable)
unfolding normalize_guest_path
normalize_guest_path-error [] e h = inl (cc, refl)
normalize_guest_path-error (b ∷ path) e h = elim (bind_err (walk (split (b ∷ path)) []) _ h) [
  | inl w ↦ inr (walk-error (split (b ∷ path)) [] e w)
  | inr (names, _, r) ↦ inr (cc r)
]

-- How a normalized path is written: proper names with one slash between two of them, behind a slash
-- where the path is absolute; without a name it is "/" or ".".
unfoldable pub Spelled : Bool → List Bytes → Bytes → Type 0
Spelled true [] n = n ≡ slash ∷ []
Spelled false [] n = n ≡ dot
Spelled true (p ∷ ps) n = n ≡ slash ∷ join (p ∷ ps)
Spelled false (p ∷ ps) n = n ≡ join (p ∷ ps)

render-Spelled :
    (b : Bool) (names : List Bytes) → All IsName names → Spelled b names (render b names)
unfolding Spelled
render-Spelled true [] h = refl
render-Spelled false [] h = refl
render-Spelled true (p ∷ ps) h = render_joined true p ps h
render-Spelled false (p ∷ ps) h = render_joined false p ps h

absolute-Spelled :
    (b : Bool) (names : List Bytes) (n : Bytes)
    → All IsName names
    → Spelled b names n
    → absolute n ≡ b
unfolding Spelled
absolute-Spelled true [] n h e = rw e refl
absolute-Spelled false [] n h e = rw e refl
absolute-Spelled true (p ∷ ps) n h e = rw e refl
absolute-Spelled false (p ∷ ps) n h e =
    let (c, cs, j, no_slash) = join_head p ps h.0 in rw (e, j) (ground arith)

-- The result of a normalization is a proper path, absolute exactly if the guest's path is, and is
-- its own normalization.
pub normalize_guest_path_lem :
    (path n : Bytes)
    → normalize_guest_path path ≡ ok n
    → ((names : List Bytes) × Spelled (absolute path) names n × All IsName names)
      × (absolute n ≡ absolute path)
      × (normalize_guest_path n ≡ ok n)
normalize_guest_path_lem path n h =
    let (names, r, proper) = normalize_guest_path-IsNormal path n h in
    let spelled =
      subst (Spelled (absolute path) names) (sym r) (render-Spelled (absolute path) names proper) in
    (
      (names, spelled, proper),
      absolute-Spelled (absolute path) names n proper spelled,
      rw r (normalize-render (absolute path) names proper),
    )
