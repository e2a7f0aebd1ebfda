-- ===== src/Tests/Lookup.antt =====
-- Paths below two preopens: "/data" for the host's "/srv", and "." for its current directory.
use wasmtime_mysql.Prelude.{◌≤◌, ◌≡◌, refl, All, List, [], ◌∷◌, ok, err, length}
use wasmtime_mysql.Errno.{enotcapable}
use wasmtime_mysql.Guest.{Bytes}
use wasmtime_mysql.Paths.{
  root_dir, normal, PathBuf, PreopenMapping, absolute, normalize_guest_path, resolve, resolve_in,
  part_kind, sort_preopens, suffix_for, join_suffix,
}
use wasmtime_mysql.Paths.Text.{dot}
use wasmtime_mysql.Paths.Normal.{IsName, Spelled, normalize_guest_path_lem}
use wasmtime_mysql.Paths.Confined.{Confined, resolve-Confined}
use wasmtime_mysql.Paths.Covers.{Covers}
use wasmtime_mysql.Paths.Longest.{resolve_in-longest}
use mathlib.Core.List.{Mem}

-- "/data", "a", "/data/x/../a", "/data/a" and "srv"
abbrev data_dir : Bytes
data_dir = 0x2f ∷ 0x64 ∷ 0x61 ∷ 0x74 ∷ 0x61 ∷ []

abbrev roundabout : Bytes
roundabout = 0x2f ∷ 0x64 ∷ 0x61 ∷ 0x74 ∷ 0x61 ∷ 0x2f ∷ 0x78 ∷ 0x2f ∷ 0x2e ∷ 0x2e ∷ 0x2f ∷ 0x61 ∷ []

abbrev straight : Bytes
straight = 0x2f ∷ 0x64 ∷ 0x61 ∷ 0x74 ∷ 0x61 ∷ 0x2f ∷ 0x61 ∷ []

abbrev srv : PathBuf
srv = root_dir ∷ normal (0x73 ∷ 0x72 ∷ 0x76 ∷ []) ∷ []

abbrev pub mounts : List PreopenMapping
mounts = record { guest = data_dir; host = srv } ∷ record { guest = dot; host = [] } ∷ []

abbrev target : PathBuf
target = root_dir ∷ normal (0x73 ∷ 0x72 ∷ 0x76 ∷ []) ∷ normal (0x61 ∷ []) ∷ []

-- "../a"
abbrev climbing : Bytes
climbing = 0x2e ∷ 0x2e ∷ 0x2f ∷ 0x61 ∷ []

normalized : normalize_guest_path roundabout ≡ ok straight
unfolding normalize_guest_path part_kind
normalized = refl

climbs : normalize_guest_path climbing ≡ err enotcapable
unfolding normalize_guest_path part_kind
climbs = refl

resolved : resolve mounts roundabout ≡ ok target
unfolding resolve part_kind
resolved = refl

climbs_out : resolve mounts climbing ≡ err enotcapable
unfolding resolve part_kind
climbs_out = refl

-- The same mounts, as they were given.
abbrev given : List PreopenMapping
given = record { guest = dot; host = [] } ∷ record { guest = data_dir; host = srv } ∷ []

resolved_in : resolve_in (sort_preopens given) straight ≡ ok target
unfolding sort_preopens resolve_in suffix_for join_suffix
resolved_in = refl

normalize_guest_path_lem_example :
    ((names : List Bytes) × Spelled (absolute roundabout) names straight × All IsName names)
    × (absolute straight ≡ absolute roundabout)
    × (normalize_guest_path straight ≡ ok straight)
normalize_guest_path_lem_example = normalize_guest_path_lem roundabout straight normalized

resolve-Confined_example : Confined mounts target
resolve-Confined_example = resolve-Confined mounts roundabout target resolved

resolve_in-longest_example :
    (p : PreopenMapping) × (suffix : Bytes) × Mem p given
    × Covers p.guest straight suffix
    × (target ≡ join_suffix p.host suffix)
    × ((q : PreopenMapping) (other : Bytes)
        → Mem q given
        → Covers q.guest straight other
        → length q.guest ≤ length p.guest)
resolve_in-longest_example = resolve_in-longest given straight target resolved_in
