-- ===== src/Pool/Tests.antt =====
-- Tests and examples for pkg/plugins/sandbox/docker/pool.go, with a small daemon that keeps names.
use whiteagent.Common.{
  ℕ, zero, suc, ◌+◌, ◌<◌, ◌≤◌, erase, Bool, true, false, not, Bool-cases, inl, inr, Option, none,
  some, List, [], ◌∷◌, ◌++◌, Text, codes, text_eq, text_eq_refl, contains_byte, load, store, Result,
  ok, err, if◌then◌else◌, ◌≡◌, ◌≢◌, ◌⊎◌, ◌↔◌, refl, sym, ap, ◌∙◌, subst, arith,
}
use whiteagent.Pool.{
  Client, Config, Info, Containers, Mount, PoolError, create_failed, bad_mount, workspace,
  container_name, ensure, sweep_once, wanted_binds, translate_mount_paths, binds_match,
  validate_mounts,
}
use whiteagent.Pool.Match.{binds_match_lem}
use whiteagent.Pool.Sorting.{SameItems}
use whiteagent.Pool.Sweep.{sweep_once_lem}
use whiteagent.Pool.Ensure.{Reused, Started, bind_texts, ensure_lem}
use whiteagent.Pool.Names.{KeepsNames, ensure_clash}

-- The names that are in use.
abbrev World : Type 0
World = List Text

abbrev held : Text → World → Bool
held name [] = false
held name (n ∷ ns) = let rest = held name ns in if text_eq name n then true else rest

abbrev make : Text → World → Option Text × World
make name w = if held name w then (none, w) else (some name, name ∷ w)

abbrev daemon : Client World
daemon = record {
  inspect = λ id w. (none, w);
  create = λ name body w. make name w;
  start = λ id w. (true, w);
  stop = λ id seconds w. (true, w);
  remove = λ id w. (true, w);
  list_managed = λ w. (some [], w);
  exec_create = λ id body w. (some id, w);
  exec_start = λ exec limit w. (some ([], []), w);
  timed_out = λ w. false;
  exec_inspect = λ exec w. (some 0, w);
  chown = λ path uid gid w. w;
  decimal = λ n. [];
}

abbrev settings : Config
settings = record {
  image = codes "debian";
  idle_timeout = 600;
  stop_timeout = 10;
  network = [];
  network_mode = [];
  allow_network = false;
  container_uid = 1000;
  container_gid = 1000;
  env = [];
  nano_cpus = 1000;
  memory_mb = 512;
  pids_limit = 100;
  tmpfs_mb = 64;
  max_output_mb = 1;
  container_data_dir = [];
  host_data_dir = [];
}

abbrev folder : Mount
folder = record { source = codes "/d"; target = codes "/w"; read_only = false }

daemon-takes :
    (name : Text) (w : World) (id : Text)
    → (make name w).0 ≡ some id
    → held name (make name w).1 ≡ true
daemon-takes name w id h = elim (Bool-cases (held name w)) [
  | inl in_use ↦ absurd (ground (arith, h, in_use))
  | inr free ↦ rw free (rw (text_eq_refl name) refl)
]

daemon-KeepsNames : KeepsNames daemon held
daemon-KeepsNames = record {
  refuses = λ name body w h. rw h refl;
  takes = λ name body w id h. daemon-takes name w id h;
  start_keeps = λ name id w h. h;
  chown_keeps = λ name path uid gid w h. h;
}

abbrev ann : Text
ann = codes "0190aaaa-1"

abbrev bob : Text
bob = codes "0190aaaa-2"

abbrev body : Info
body = record { id = codes "c1"; last_used = 0; active = 0 }

abbrev pool : Containers
pool = (ann, body) ∷ []

sweep_once_lem_example :
    (load ann (sweep_once daemon settings 700 pool []).0 ≡ some body)
    ↔ ((load ann pool ≡ some body) × ((0 < 0) ⊎ (700 ≤ 600)))
unfolding load
sweep_once_lem_example = sweep_once_lem daemon settings 700 pool [] ann body (refl, tt)

-- Idle for longer than the timeout, the container goes.
idle_goes : load ann (sweep_once daemon settings 700 pool []).0 ≡ none
unfolding sweep_once load text_eq erase
idle_goes = refl

ensure_lem_example :
    let (r, cs', w') = ensure daemon settings ann [] (folder ∷ []) 5 pool [] in
    (wanted_binds daemon settings (folder ∷ [])
      ≡ bind_texts (translate_mount_paths [] [] (folder ∷ [])))
    × ((other : Text) → other ≢ ann → load other cs' ≡ load other pool)
    × ((x : Text)
        → r ≡ ok x
        → (x ≡ workspace)
          × ((ci : Info) × (load ann cs' ≡ some ci)
              × (ci.last_used ≡ 5)
              × (Reused daemon settings ann [] (folder ∷ []) 5 ci pool [] w'
                  ⊎ Started daemon settings ann [] (folder ∷ []) 5 ci w')))
    × ((e : PoolError) → r ≡ err e → ((e ≡ bad_mount) × (cs' ≡ pool)) ⊎ (load ann cs' ≡ none))
ensure_lem_example = ensure_lem daemon settings ann [] (folder ∷ []) 5 pool []

first_made : (ensure daemon settings ann [] (folder ∷ []) 5 [] []).0 ≡ ok workspace
unfolding ensure validate_mounts whiteagent.Common.has_prefix load
first_made = refl

-- The world after the first container was made.
abbrev named : World
named = codes "whiteagent-0190aaaa" ∷ []

ensure_clash_example :
    let (r1, cs1, w1) = ensure daemon settings ann [] (folder ∷ []) 5 [] [] in
    let (r2, cs2, w2) = ensure daemon settings bob [] (folder ∷ []) 6 [] named in
    (held (codes "whiteagent-0190aaaa") w1 ≡ true) × (r2 ≡ err create_failed) × (cs2 ≡ [])
unfolding validate_mounts load whiteagent.Common.has_prefix text_eq
ensure_clash_example =
    ensure_clash daemon settings held daemon-KeepsNames ann bob [] (folder ∷ []) (folder ∷ []) 5 6
      [] [] [] named workspace refl refl refl refl first_made refl refl

abbrev binds_a : List Text
binds_a = codes "/a:/x" ∷ codes "/b:/y:ro" ∷ []

abbrev binds_b : List Text
binds_b = codes "/b:/y:ro" ∷ codes "/a:/x" ∷ []

binds_match_lem_example : (binds_match binds_a binds_b ≡ true) ↔ SameItems binds_a binds_b
unfolding contains_byte
binds_match_lem_example = binds_match_lem binds_a binds_b (refl, (refl, tt)) (refl, (refl, tt))

order_is_free : binds_match binds_a binds_b ≡ true
unfolding binds_match text_eq whiteagent.Pool.join_lines whiteagent.Pool.sort_strings
    whiteagent.Common.text_le
order_is_free = refl
