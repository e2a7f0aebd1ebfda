-- ===== src/Paths/Confined.antt =====
-- No guest path resolves to a host path outside the preopened directories.
use mathlib.Core.List.{Mem, mem-cons_self, mem-cons_of_mem}
use wasmtime_mysql.Prelude.{
  Bool, true, false, ◌≡◌, refl, sym, ◌∙◌, ap, ◌⊎◌, List, [], ◌∷◌, ◌++◌, map, All, All-map, arith,
  Bool-cases, inl, inr, ◌==◌, if◌then◌else◌,
}
use wasmtime_mysql.Prelude.{ℤ, ok, err, bind_ok, bind_err, Option, none, some, Option-cases, length}
use wasmtime_mysql.Errno.{enoent, enotcapable, einval}
use wasmtime_mysql.Guest.{Bytes}
use wasmtime_mysql.Paths.Text.{
  slash, dot, dot_dot, eq_text, is_empty, split, join, starts_with→append, get_elem?-drop-suc,
}
use wasmtime_mysql.Paths.Split.{NoSlash, split-join, split-All-NoSlash, split-append}
use wasmtime_mysql.Paths.Normal.{
  IsName, normalize_guest_path-IsNormal, normalize_guest_path-error, render_joined,
}
use wasmtime_mysql.Paths.{
  part_kind, name, absolute, render, normalize_guest_path, PathBuf, normal, pushed, join_suffix,
  PreopenMapping, strip_slash, suffix_for, resolve_in, resolve, parent, any_host, resolve_parent,
}

abbrev NotUp : Bytes → Type 0
NotUp c = eq_text c dot_dot ≡ false

IsName-NotUp : (p : Bytes) → IsName p → NotUp p
unfolding part_kind
IsName-NotUp p (k, _) = ground arith

named : (c : Bytes) → NotUp c → is_empty c ≡ false → eq_text c dot ≡ false → part_kind c ≡ name
unfolding part_kind
named c u e d = rw (e, d, u)

-- Only proper names are pushed.
pushed_names :
    (cs : List Bytes)
    → All NoSlash cs
    → All NotUp cs
    → (names : List Bytes) × (pushed cs ≡ map normal names) × All IsName names
pushed_names [] s u = ([], refl, tt)
pushed_names (c ∷ cs) (s, ss) (u, us) =
    let (names, e, h) = pushed_names cs ss us in
    elim (Bool-cases (is_empty c)) [
      | inl empty ↦ (names, rw empty e, h)
      | inr full ↦ elim (Bool-cases (eq_text c dot)) [
        | inl here ↦ (names, rw (full, here) e, h)
        | inr other ↦
            (c ∷ names, rw (full, other, u) (ap (◌∷◌ (normal c)) e), ((named c u full other, s), h))
      ]
    ]

join-NotUp : (p : Bytes) (ps : List Bytes) → All IsName (p ∷ ps) → All NotUp (split (join (p ∷ ps)))
join-NotUp p ps h =
    rw (split-join p ps (All-map IsName NoSlash (p ∷ ps) (λ _ n. n.1) h))
      (All-map IsName NotUp (p ∷ ps) IsName-NotUp h)

render-NotUp :
    (b : Bool) (names : List Bytes) → All IsName names → All NotUp (split (render b names))
render-NotUp true [] h = (refl, (refl, tt))
render-NotUp false [] h = (refl, tt)
render-NotUp true (p ∷ ps) h = rw (render_joined true p ps h) (refl, join-NotUp p ps h)
render-NotUp false (p ∷ ps) h = rw (render_joined false p ps h) (join-NotUp p ps h)

All-drop_append {ℓ κ} : {A : Type ℓ} (P : A → Type κ) (xs ys : List A) → All P (xs ++ ys) → All P ys
All-drop_append P [] ys h = h
All-drop_append P (x ∷ xs) ys (_, h) = All-drop_append P xs ys h

strip_slash-NotUp : (n : Bytes) → All NotUp (split n) → All NotUp (split (strip_slash n))
strip_slash-NotUp [] u = u
strip_slash-NotUp (b ∷ s) u = elim (Bool-cases (b == slash)) [
  | inl e ↦ rw e (rw e at u).1
  | inr e ↦ rw e u
]

-- Where a suffix comes from.
suffix_for_cases :
    (guest n suffix : Bytes)
    → suffix_for guest n ≡ some suffix
    → (suffix ≡ n) ⊎ (suffix ≡ strip_slash n) ⊎ (suffix ≡ []) ⊎ (n ≡ guest ++ (slash ∷ suffix))
unfolding suffix_for
suffix_for_cases guest n suffix h =
    ground (arith, starts_with→append n guest, get_elem?-drop-suc n (length guest) slash)

suffix_for-NotUp :
    (guest n suffix : Bytes)
    → All NotUp (split n)
    → suffix_for guest n ≡ some suffix
    → All NotUp (split suffix)
suffix_for-NotUp guest n suffix u h = elim (suffix_for_cases guest n suffix h) [
  | inl e ↦ rw e u
  | inr (inl e) ↦ rw e (strip_slash-NotUp n u)
  | inr (inr (inl e)) ↦ rw e (refl, tt)
  | inr (inr (inr e)) ↦
      All-drop_append NotUp (split guest) (split suffix) (rw (e, split-append guest suffix) at u)
]

-- `h` is one of the preopened directories with proper names behind it.
abbrev pub Confined : List PreopenMapping → PathBuf → Type 0
Confined preopens h =
    (preopen : PreopenMapping) × (names : List Bytes) × Mem preopen preopens
    × (h ≡ preopen.host ++ map normal names)
    × All IsName names

pub resolve_in_hit :
    (p : PreopenMapping) (ps : List PreopenMapping) (n : Bytes) {suffix : Bytes}
    → suffix_for p.guest n ≡ some suffix
    → resolve_in (p ∷ ps) n ≡ ok (join_suffix p.host suffix)
unfolding resolve_in
resolve_in_hit p ps n e = rw (e, resolve_in)

pub resolve_in_miss :
    (p : PreopenMapping) (ps : List PreopenMapping) (n : Bytes)
    → suffix_for p.guest n ≡ none
    → resolve_in (p ∷ ps) n ≡ resolve_in ps n
unfolding resolve_in
resolve_in_miss p ps n e = rw (e, resolve_in)

join_suffix_lem :
    (root : PathBuf) (suffix : Bytes) → join_suffix root suffix ≡ root ++ pushed (split suffix)
unfolding join_suffix
join_suffix_lem root suffix = refl

unfold_nil : (n : Bytes) → resolve_in [] n ≡ err enotcapable
unfolding resolve_in
unfold_nil n = refl

pub no_preopen : (n : Bytes) {h : PathBuf} → resolve_in [] n ≡ ok h → ⊥
unfolding resolve_in
no_preopen n e = cc

resolve_in-Confined :
    (preopens : List PreopenMapping) (n : Bytes) (h : PathBuf)
    → All NotUp (split n)
    → resolve_in preopens n ≡ ok h
    → Confined preopens h
resolve_in-Confined [] n h u e = absurd (no_preopen n e)
resolve_in-Confined (p ∷ ps) n h u e = elim (Option-cases (suffix_for p.guest n)) [
  | inl miss ↦
      let (m, names, mem, eq, all) =
        resolve_in-Confined ps n h u (sym (resolve_in_miss p ps n miss) ∙ e) in
      (m, names, mem-cons_of_mem p mem, eq, all)
  | inr (suffix, hit) ↦
      let (names, eq, all) =
        pushed_names (split suffix) (split-All-NoSlash suffix)
          (suffix_for-NotUp p.guest n suffix u hit) in
      (p, names, mem-cons_self, cc (resolve_in_hit p ps n hit, join_suffix_lem p.host suffix), all)
]

-- A host path that a guest path resolves to is a preopened directory with proper names behind it:
-- no "..", no absolute part and no empty name can lead out of the preopened directories.
pub resolve-Confined :
    (preopens : List PreopenMapping) (guest_path : Bytes) (h : PathBuf)
    → resolve preopens guest_path ≡ ok h
    → Confined preopens h
unfolding resolve
resolve-Confined preopens guest_path h e =
    let (n, normalized, r) = bind_ok (normalize_guest_path guest_path) _ e in
    let (names, rendered, all) = normalize_guest_path-IsNormal guest_path n normalized in
    resolve_in-Confined preopens n h (rw rendered (render-NotUp (absolute guest_path) names all)) r

resolve_in-error :
    (preopens : List PreopenMapping) (n : Bytes) (e : ℤ)
    → resolve_in preopens n ≡ err e
    → e ≡ enotcapable
resolve_in-error [] n e h = cc (unfold_nil n)
resolve_in-error (p ∷ ps) n e h = elim (Option-cases (suffix_for p.guest n)) [
  | inl miss ↦ resolve_in-error ps n e (sym (resolve_in_miss p ps n miss) ∙ h)
  | inr (suffix, hit) ↦ cc (resolve_in_hit p ps n hit)
]

-- A path that is refused was empty (ENOENT), or it climbs above its start or lies below no preopen
-- (ENOTCAPABLE).
pub resolve-errors :
    (preopens : List PreopenMapping) (guest_path : Bytes) (e : ℤ)
    → resolve preopens guest_path ≡ err e
    → ((e ≡ enoent) × (guest_path ≡ [])) ⊎ (e ≡ enotcapable)
unfolding resolve
resolve-errors preopens guest_path e h = elim (bind_err (normalize_guest_path guest_path) _ h) [
  | inl n ↦ normalize_guest_path-error guest_path e n
  | inr (n, _, r) ↦ inr (resolve_in-error preopens n e r)
]

parent_refused :
    (preopens : List PreopenMapping) (o : Option PathBuf) (e : ℤ)
    → (elim o [
      | none ↦ err einval
      | some p ↦ if any_host preopens p then ok p else err enotcapable
    ])
      ≡ err e
    → (e ≡ einval) ⊎ (e ≡ enotcapable)
parent_refused preopens none e h = inl (cc)
parent_refused preopens (some p) e h = elim (Bool-cases (any_host preopens p)) [
  | inl y ↦ absurd (cc (rw y at h))
  | inr n ↦ inr (cc (rw n at h))
]

pub resolve_parent-error :
    (preopens : List PreopenMapping) (guest_path : Bytes) (e : ℤ)
    → resolve_parent preopens guest_path ≡ err e
    → (e ≡ enoent) ⊎ (e ≡ enotcapable) ⊎ (e ≡ einval)
unfolding resolve_parent
resolve_parent-error preopens guest_path e h = elim (bind_err (resolve preopens guest_path) _ h) [
  | inl r ↦ elim (resolve-errors preopens guest_path e r) [
    | inl (same, _) ↦ inl same
    | inr same ↦ inr (inl same)
  ]
  | inr (p, _, r) ↦ elim (parent_refused preopens (parent p) e r) [
    | inl same ↦ inr (inr same)
    | inr same ↦ inr (inl same)
  ]
]
