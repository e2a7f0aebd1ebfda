-- ===== src/Paths/Longest.antt =====
-- Which preopen a guest path goes to: the order of the table.
use mathlib.Core.List.{Mem, Perm, mem-cons, mem-cons_self, mem-cons_of_mem, not-mem-nil}
use mathlib.Core.List.Perm
use mathlib.Core.Logic.Or
use native.Mathlib.Bridge.{le_prop}
use wasmtime_mysql.Prelude.{
  ℕ, ◌≤◌, ◌≡◌, sym, ◌∙◌, ap, ◌≢◌, List, [], ◌∷◌, All, arith, Bool-cases, inl, inr, ltb,
}
use wasmtime_mysql.Prelude.{ok, none, some, Option-cases, length}
use wasmtime_mysql.Guest.{Bytes}
use wasmtime_mysql.Paths.Covers.{Covers, suffix_for-Covers, Covers-suffix_for}
use wasmtime_mysql.Paths.Confined.{resolve_in_hit, resolve_in_miss, no_preopen}
use wasmtime_mysql.Paths.{
  PathBuf, PreopenMapping, suffix_for, resolve_in, join_suffix, insert_sorted, sort_preopens,
}

-- Guest paths do not get longer down the table.
abbrev pub IsSorted : List PreopenMapping → Type 0
IsSorted [] = Unit {0}
IsSorted (p ∷ ps) = All (λ q. length q.guest ≤ length p.guest) ps × IsSorted ps

insert_sorted-All :
    (n : ℕ) (p : PreopenMapping) (ps : List PreopenMapping)
    → length p.guest ≤ n
    → All (λ q. length q.guest ≤ n) ps
    → All (λ q. length q.guest ≤ n) (insert_sorted p ps)
insert_sorted-All n p [] h hs = (h, tt)
insert_sorted-All n p (q ∷ qs) h (k, ks) =
    elim (Bool-cases (ltb (length p.guest) (length q.guest))) [
      | inl e ↦ rw e (k, insert_sorted-All n p qs h ks)
      | inr e ↦ rw e (h, (k, ks))
    ]

All-le_mono :
    (m n : ℕ) (ps : List PreopenMapping)
    → m ≤ n
    → All (λ q. length q.guest ≤ m) ps
    → All (λ q. length q.guest ≤ n) ps
All-le_mono m n [] h hs = tt
All-le_mono m n (q ∷ qs) h (k, ks) = (omega arith, All-le_mono m n qs h ks)

insert_sorted-IsSorted :
    (p : PreopenMapping) (ps : List PreopenMapping) → IsSorted ps → IsSorted (insert_sorted p ps)
insert_sorted-IsSorted p [] s = (tt, tt)
insert_sorted-IsSorted p (q ∷ qs) (s, ss) =
    elim (Bool-cases (ltb (length p.guest) (length q.guest))) [
      | inl e ↦
          rw e (
            insert_sorted-All (length q.guest) p qs (ground arith) s,
            insert_sorted-IsSorted p qs ss,
          )
      | inr e ↦
          let h : length q.guest ≤ length p.guest = ground arith in
          rw e ((h, All-le_mono (length q.guest) (length p.guest) qs h s), (s, ss))
    ]

insert_sorted-perm :
    (p : PreopenMapping) (ps : List PreopenMapping) → Perm (insert_sorted p ps) (p ∷ ps)
insert_sorted-perm p [] = Perm.refl _
insert_sorted-perm p (q ∷ qs) = elim (Bool-cases (ltb (length p.guest) (length q.guest))) [
  | inl e ↦ rw e (Perm.trans (Perm.cons q (insert_sorted-perm p qs)) (Perm.swap p q qs))
  | inr e ↦ rw e (Perm.refl _)
]

-- The table holds the preopens that were given, the longest guest path first.
pub sort_preopens_lem :
    (ps : List PreopenMapping) → IsSorted (sort_preopens ps) × Perm (sort_preopens ps) ps
unfolding sort_preopens
sort_preopens_lem [] = (tt, Perm.refl _)
sort_preopens_lem (p ∷ ps) =
    let (s, perm) = sort_preopens_lem ps in
    (
      insert_sorted-IsSorted p (sort_preopens ps) s,
      Perm.trans (insert_sorted-perm p (sort_preopens ps)) (Perm.cons p perm),
    )

All-Mem :
    (n : ℕ) (q : PreopenMapping) (ps : List PreopenMapping)
    → All (λ p. length p.guest ≤ n) ps
    → Mem q ps
    → length q.guest ≤ n
All-Mem n q [] h m = absurd (not-mem-nil m)
All-Mem n q (p ∷ ps) (h, hs) m =
    Or.elim le_prop (mem-cons.0 m) (λ e. rw e h) (λ k. All-Mem n q ps hs k)

-- Over a sorted table the first preopen with a suffix has the longest guest path of those with one.
longest_first :
    (ps : List PreopenMapping) (n : Bytes) (h : PathBuf)
    → IsSorted ps
    → resolve_in ps n ≡ ok h
    → (p : PreopenMapping) × (suffix : Bytes) × Mem p ps
      × (suffix_for p.guest n ≡ some suffix)
      × (h ≡ join_suffix p.host suffix)
      × ((q : PreopenMapping)
          → Mem q ps
          → suffix_for q.guest n ≢ none
          → length q.guest ≤ length p.guest)
longest_first [] n h s e = absurd (no_preopen n e)
longest_first (p ∷ ps) n h (s, ss) e = elim (Option-cases (suffix_for p.guest n)) [
  | inl miss ↦
      let (m, suffix, mem, hit, same, longest) =
        longest_first ps n h ss (sym (resolve_in_miss p ps n miss) ∙ e) in
      (
        m,
        suffix,
        mem-cons_of_mem p mem,
        hit,
        same,
        λ q k covers.
            Or.elim le_prop (mem-cons.0 k)
              (λ same_q. absurd (covers (ap (λ r. suffix_for r.guest n) same_q ∙ miss)))
              (λ below. longest q below covers),
      )
  | inr (suffix, hit) ↦ (
    p,
    suffix,
    mem-cons_self,
    hit,
    cc (resolve_in_hit p ps n hit),
    λ q k covers.
        Or.elim le_prop (mem-cons.0 k) (λ same_q. rw same_q (omega arith))
          (λ below. All-Mem (length p.guest) q ps s below),
  )
]

-- Of the preopens that were given, in whatever order, a path goes to one that covers it, with what is left
-- of the path behind it; and none of them that covers the path has a longer guest path.
pub resolve_in-longest :
    (given : List PreopenMapping) (n : Bytes) (h : PathBuf)
    → resolve_in (sort_preopens given) n ≡ ok h
    → (p : PreopenMapping) × (suffix : Bytes) × Mem p given
      × Covers p.guest n suffix
      × (h ≡ join_suffix p.host suffix)
      × ((q : PreopenMapping) (other : Bytes)
          → Mem q given
          → Covers q.guest n other
          → length q.guest ≤ length p.guest)
resolve_in-longest given n h e =
    let (sorted, perm) = sort_preopens_lem given in
    let (p, suffix, member, hit, same, longest) =
      longest_first (sort_preopens given) n h sorted e in
    (
      p,
      suffix,
      (Perm.mem_iff perm).0 member,
      suffix_for-Covers p.guest n suffix hit,
      same,
      λ q other k covers.
          longest q ((Perm.mem_iff perm).1 k) (Covers-suffix_for q.guest n other covers),
    )
