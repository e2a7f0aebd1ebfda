-- ===== src/Runtime/Grants.antt =====
-- What `build_wasi` grants: the directories of the table of files, and the network unless it is refused.
use mathlib.Core.List.{Perm, append_assoc}
use mathlib.Core.List.Perm
use wasmtime_mysql.Prelude.{
  ◌≡◌, refl, sym, ap, subst, ◌∙◌, arith, Bool, true, false, not, ◌||◌, List, [], ◌∷◌, ◌++◌, map,
  Option, none, some, ℤ, ok, ok_or, bind_ok, Bool-cases, inl, inr, ltb, length,
}
use wasmtime_mysql.Guest.{Bytes}
use wasmtime_mysql.Paths.{
  PathBuf, PreopenMapping, normalize_guest_path, sort_preopens, insert_sorted,
}
use wasmtime_mysql.Paths.Text.{dot}
use wasmtime_mysql.Files.{HostFiles, CliPreopen, new, given_preopens, default_preopens}
use wasmtime_mysql.Runtime.Wasi.{
  Cli, BuilderCall, inherit_network, allow_ip_name_lookup, allow_tcp, allow_udp, set_args,
  preopened_dir, initial_cwd, Directories, program, env_calls, preopen_dir, append_calls,
  default_dir, given_dirs, network_calls, first_calls, build_wasi,
}

abbrev host_of : BuilderCall → List PathBuf
host_of (preopened_dir host guest) = host ∷ []
host_of _ = []

-- The host directories that the calls preopen.
abbrev pub hosts : List BuilderCall → List PathBuf
hosts [] = []
hosts (call ∷ calls) = host_of call ++ hosts calls

abbrev grants : BuilderCall → Bool
grants inherit_network = true
grants (allow_ip_name_lookup b) = b
grants (allow_tcp b) = b
grants (allow_udp b) = b
grants _ = false

-- Whether some call grants the network, its names or its protocols.
abbrev pub grants_network : List BuilderCall → Bool
grants_network [] = false
grants_network (call ∷ calls) = grants call || grants_network calls

append_some :
    (os : Directories) (a b : Option (List BuilderCall)) (calls : List BuilderCall)
    → append_calls os a b ≡ some calls
    → (x : List BuilderCall) × (y : List BuilderCall) × (a ≡ some x)
      × (b ≡ some y)
      × (x ++ y ≡ calls)
append_some os none b calls e = absurd (ground arith)
append_some os (some x) none calls e = absurd (ground arith)
append_some os (some x) (some y) calls e = (x, y, refl, refl, ground arith)

hosts-append : (xs ys : List BuilderCall) → hosts (xs ++ ys) ≡ hosts xs ++ hosts ys
hosts-append [] ys = refl
hosts-append (c ∷ xs) ys =
    ap (λ h. host_of c ++ h) (hosts-append xs ys)
    ∙ sym (append_assoc (host_of c) (hosts xs) (hosts ys))

or_assoc : (a b c : Bool) → (a || (b || c)) ≡ ((a || b) || c)
or_assoc true b c = refl
or_assoc false b c = refl

grants_network-append :
    (xs ys : List BuilderCall)
    → grants_network (xs ++ ys) ≡ (grants_network xs || grants_network ys)
grants_network-append [] ys = refl
grants_network-append (c ∷ xs) ys =
    ap (λ b. grants c || b) (grants_network-append xs ys)
    ∙ or_assoc (grants c) (grants_network xs) (grants_network ys)

env_calls_lem :
    (env : List (Bytes × Bytes))
    → (hosts (env_calls env) ≡ []) × (grants_network (env_calls env) ≡ false)
env_calls_lem [] = (refl, refl)
env_calls_lem ((k, v) ∷ env) = env_calls_lem env

abbrev hosts_of : List CliPreopen → List PathBuf
hosts_of ps = map (λ (p : CliPreopen). p.host) ps

abbrev pub mapped : List PreopenMapping → List PathBuf
mapped ps = map (λ (p : PreopenMapping). p.host) ps

append_empty : (xs : List PathBuf) → xs ++ [] ≡ xs
append_empty [] = refl
append_empty (x ∷ xs) = ap (◌∷◌ x) (append_empty xs)

some_inj {ℓ} : {A : Type ℓ} {a b : A} → some a ≡ some b → a ≡ b
some_inj e = cc

ok_inj {ℓ} : {A : Type ℓ} {a b : A} → ok a ≡ ok b → a ≡ b
ok_inj e = cc

module _ (os : Directories) where
  preopen_dir_lem :
      (host : PathBuf) (guest : Bytes) (calls : List BuilderCall)
      → preopen_dir os host guest ≡ some calls
      → calls ≡ preopened_dir host guest ∷ []
  unfolding preopen_dir
  preopen_dir_lem host guest calls e = ground arith

  given_dirs_lem :
      (ps : List CliPreopen) (calls : List BuilderCall)
      → given_dirs os ps ≡ some calls
      → (hosts calls ≡ hosts_of ps) × (grants_network calls ≡ false)
  given_dirs_lem [] calls e =
      subst (λ z. (hosts z ≡ []) × (grants_network z ≡ false)) (some_inj e) (refl, refl)
  given_dirs_lem (p ∷ ps) calls e =
      let (x, y, a, b, c) =
        append_some os (preopen_dir os p.host p.guest) (given_dirs os ps) calls e in
      let (h, g) = given_dirs_lem ps y b in
      let one = preopen_dir_lem p.host p.guest x a in
      subst (λ z. (hosts z ≡ hosts_of (p ∷ ps)) × (grants_network z ≡ false))
        (ap (λ z. z ++ y) (sym one) ∙ c) (ap (◌∷◌ p.host) h, g)

  default_dir_lem :
      (no_default : Bool) (cwd : Option PathBuf) (n : ℤ) (calls : List BuilderCall)
      (ps : List PreopenMapping)
      → default_dir os no_default cwd ≡ some calls
      → default_preopens no_default (ok_or cwd n) ≡ ok ps
      → (hosts calls ≡ mapped ps) × (grants_network calls ≡ false)
  unfolding default_preopens
  default_dir_lem true cwd n calls ps e d =
      (ap hosts (sym (some_inj e)) ∙ ap mapped (ok_inj d), ap grants_network (sym (some_inj e)))
  default_dir_lem false none n calls ps e d = absurd (ground arith)
  default_dir_lem false (some cwd) n calls ps e d =
      let (x, y, a, b, c) =
        append_some os (preopen_dir os cwd dot) (some (initial_cwd dot ∷ [])) calls e in
      let whole : preopened_dir cwd dot ∷ initial_cwd dot ∷ [] ≡ calls =
        ap (λ z. z ++ (initial_cwd dot ∷ [])) (sym (preopen_dir_lem cwd dot x a))
        ∙ ap (λ z. x ++ z) (some_inj b)
        ∙ c in
      (ap hosts (sym whole) ∙ ap mapped (ok_inj d), ap grants_network (sym whole))

  first_calls_lem :
      (cli : Cli)
      → (hosts (first_calls os cli) ≡ []) × (grants_network (first_calls os cli) ≡ false)
  first_calls_lem cli = elim (Bool-cases cli.no_inherit_env) [
    | inl e ↦ rw e (after_env [])
    | inr e ↦ rw e (after_env [])
  ]
    where
      after_env :
          (rest : List BuilderCall)
          → (hosts (env_calls cli.env ++ (set_args (program ∷ cli.guest_args) ∷ [])) ≡ [])
            × (grants_network (env_calls cli.env ++ (set_args (program ∷ cli.guest_args) ∷ []))
                ≡ false)
      after_env rest =
          let (h, g) = env_calls_lem cli.env in
          let last = set_args (program ∷ cli.guest_args) ∷ [] in
          (
            hosts-append (env_calls cli.env) last ∙ ap (λ z. z ++ []) h,
            grants_network-append (env_calls cli.env) last ∙ ap (λ b. b || false) g,
          )

  network_calls_lem :
      (no_network : Bool)
      → (hosts (network_calls os no_network) ≡ [])
        × (grants_network (network_calls os no_network) ≡ not no_network)
  network_calls_lem true = (refl, refl)
  network_calls_lem false = (refl, refl)

  mapped_given :
      (ps : List CliPreopen) (rest : List PreopenMapping)
      → given_preopens ps ≡ ok rest
      → mapped rest ≡ hosts_of ps
  unfolding given_preopens
  mapped_given [] rest e = ap mapped (sym (ok_inj e))
  mapped_given (p ∷ ps) rest e =
      let (guest, _, r) = bind_ok (normalize_guest_path p.guest) _ e in
      let (later, l, q) = bind_ok (given_preopens ps) _ r in
      ap mapped (sym (ok_inj q)) ∙ ap (◌∷◌ p.host) (mapped_given ps later l)

  mapped-append : (xs ys : List PreopenMapping) → mapped (xs ++ ys) ≡ mapped xs ++ mapped ys
  mapped-append [] ys = refl
  mapped-append (p ∷ xs) ys = ap (◌∷◌ p.host) (mapped-append xs ys)

  mapped-insert_sorted :
      (p : PreopenMapping) (ps : List PreopenMapping)
      → Perm (mapped (insert_sorted p ps)) (mapped (p ∷ ps))
  mapped-insert_sorted p [] = Perm.refl _
  mapped-insert_sorted p (q ∷ qs) = elim (Bool-cases (ltb (length p.guest) (length q.guest))) [
    | inl e ↦ rw e (
        Perm.trans (Perm.cons q.host (mapped-insert_sorted p qs))
          (Perm.swap p.host q.host (mapped qs)))
    | inr e ↦ rw e (Perm.refl _)
  ]

  mapped-sort_preopens : (ps : List PreopenMapping) → Perm (mapped (sort_preopens ps)) (mapped ps)
  unfolding sort_preopens
  mapped-sort_preopens [] = Perm.refl _
  mapped-sort_preopens (p ∷ ps) =
      Perm.trans (mapped-insert_sorted p (sort_preopens ps))
        (Perm.cons p.host (mapped-sort_preopens ps))

  -- Where both the WASI context and the table of files are made from one command line: the host directories
  -- that WASI preopens are those that the table resolves paths in, as often, and WASI grants the network
  -- exactly if --no-network is not given, which is when the socket calls are allowed it.
  pub build_wasi-new :
      {File : Type 0} (cli : Cli) (n : ℤ) (calls : List BuilderCall) (t : HostFiles File)
      → build_wasi os cli ≡ some calls
      → new cli.no_default_preopen cli.preopens (ok_or os.current_dir n) ≡ ok t
      → Perm (mapped t.preopens) (hosts calls) × (grants_network calls ≡ not cli.no_network)
  unfolding build_wasi new
  build_wasi-new cli n calls t made opened =
      let (first, tail1, a1, b1, c1) = append_some os (some (first_calls os cli)) _ calls made in
      let (x, tail2, a2, b2, c2) =
        append_some os (default_dir os cli.no_default_preopen os.current_dir) _ tail1 b1 in
      let (y, z, a3, b3, c3) =
        append_some os (given_dirs os cli.preopens) (some (network_calls os cli.no_network)) tail2
          b2 in
      let (ps, d, r) =
        bind_ok (default_preopens cli.no_default_preopen (ok_or os.current_dir n)) _ opened in
      let (rest, g, q) = bind_ok (given_preopens cli.preopens) _ r in
      let (fh, fg) = first_calls_lem cli in
      let (xh, xg) = default_dir_lem cli.no_default_preopen os.current_dir n x ps a2 d in
      let (yh, yg) = given_dirs_lem cli.preopens y a3 in
      let (zh, zg) = network_calls_lem cli.no_network in
      let whole : first_calls os cli ++ (x ++ (y ++ network_calls os cli.no_network)) ≡ calls =
        ap (λ f. f ++ (x ++ (y ++ network_calls os cli.no_network))) (some_inj a1)
        ∙ ap (λ u. first ++ (x ++ (y ++ u))) (some_inj b3)
        ∙ ap (λ u. first ++ (x ++ u)) c3
        ∙ ap (λ u. first ++ u) c2
        ∙ c1 in
      let net = network_calls os cli.no_network in
      let front = first_calls os cli in
      let all_hosts : hosts calls ≡ hosts x ++ hosts_of cli.preopens =
        ap hosts (sym whole)
        ∙ hosts-append front (x ++ (y ++ net))
        ∙ ap (λ h. h ++ hosts (x ++ (y ++ net))) fh
        ∙ hosts-append x (y ++ net)
        ∙ ap (λ h. hosts x ++ h)
            (hosts-append y net
              ∙ ap (λ h. h ++ hosts net) yh
              ∙ ap (λ h. hosts_of cli.preopens ++ h) zh
              ∙ append_empty (hosts_of cli.preopens)) in
      let table_hosts : mapped (ps ++ rest) ≡ hosts calls =
        mapped-append ps rest
        ∙ ap (λ h. h ++ mapped rest) (sym xh)
        ∙ ap (λ h. hosts x ++ h) (mapped_given cli.preopens rest g)
        ∙ sym all_hosts in
      (
        subst (λ u. Perm (mapped u.preopens) (hosts calls)) (ok_inj q)
            (subst (Perm (mapped (sort_preopens (ps ++ rest)))) table_hosts
              (mapped-sort_preopens (ps ++ rest))),
        ap grants_network (sym whole)
            ∙ grants_network-append front (x ++ (y ++ net))
            ∙ ap (λ b. b || grants_network (x ++ (y ++ net))) fg
            ∙ grants_network-append x (y ++ net)
            ∙ ap (λ b. b || grants_network (y ++ net)) xg
            ∙ grants_network-append y net
            ∙ ap (λ b. b || grants_network net) yg
            ∙ zg,
      )
