-- ===== src/Pool.antt =====
-- pkg/plugins/sandbox/docker/pool.go: the containers that are kept for the users.
-- The Docker client acts on a world: the daemon, with its containers, and the file system. Times are in
-- seconds. Variables of the environment are given as `name=value`. A method runs without a break, but for
-- `exec`, which is cut where others may come in; `exec_end` knows its container by the identifier.
mod Binds
pub mod Sorting
pub mod Match
pub mod Sweep
pub mod Ensure
pub mod Names
pub mod Tests
unfoldable pub use Binds.*
use whiteagent.Common.{
  ℕ, zero, suc, ◌+◌, ◌-◌, ◌*◌, ◌%◌, ◌^◌, Bool, true, false, not, ◌&&◌, Option, none, some, List, [],
  ◌∷◌, ◌++◌, Text, codes, text_eq, take_bytes, ltb, if◌then◌else◌, is_empty, load, store, erase,
  Result, ok, err,
}

-- What the pool reads of dockerConfig, with the durations parsed.
pub record Config : Type 0 where
  pub image : Text
  pub idle_timeout : ℕ
  pub stop_timeout : ℕ
  pub network : Text
  pub network_mode : Text
  pub allow_network : Bool
  pub container_uid : ℕ
  pub container_gid : ℕ
  pub env : List Text
  pub nano_cpus : ℕ
  pub memory_mb : ℕ
  pub pids_limit : ℕ
  pub tmpfs_mb : ℕ
  pub max_output_mb : ℕ
  pub container_data_dir : Text
  pub host_data_dir : Text

pub record Request : Type 0 where
  pub image : Text
  pub cmd : List Text
  pub user : Text
  pub labels : List (Text × Text)
  pub cap_drop : List Text
  pub security_opt : List Text
  pub readonly_rootfs : Bool
  pub network_mode : Text
  pub networks : List Text
  pub nano_cpus : ℕ
  pub memory : ℕ
  pub pids_limit : ℕ
  pub ulimits : List (Text × (ℕ × ℕ))
  pub tmpfs : List (Text × Text)
  pub binds : List Text
  pub env : List Text

pub record ExecRequest : Type 0 where
  pub command : Text
  pub args : List Text
  pub work_dir : Text
  pub env : List Text

pub record ExecBody : Type 0 where
  pub cmd : List Text
  pub working_dir : Text
  pub env : List Text
  pub user : Text
  pub attach_stdout : Bool
  pub attach_stderr : Bool
  pub tty : Bool

pub record ExecResult : Type 0 where
  pub stdout : Text
  pub stderr : Text
  pub exit_code : ℕ

pub record Inspected : Type 0 where
  pub status : Text
  pub binds : List Text

pub record ListEntry : Type 0 where
  pub id : Text
  pub state : Text
  pub user_label : Text
  pub service_label : Text

-- poolClient, os.Chown and the formatting of numbers. None and false are errors.
pub record Client (W : Type 0) : Type 0 where
  pub inspect : Text → W → Option Inspected × W
  pub create : Text → Request → W → Option Text × W
  pub start : Text → W → Bool × W
  pub stop : Text → ℕ → W → Bool × W
  pub remove : Text → W → Bool × W
  pub list_managed : W → Option (List ListEntry) × W
  pub exec_create : Text → ExecBody → W → Option Text × W
  pub exec_start : Text → ℕ → W → Option (Text × Text) × W
  pub timed_out : W → Bool
  pub exec_inspect : Text → W → Option ℕ × W
  pub chown : Text → ℕ → ℕ → W → W
  pub decimal : ℕ → Text

-- containerInfo
pub record Info : Type 0 where
  pub id : Text
  pub last_used : ℕ
  pub active : ℕ

abbrev pub Containers : Type 0
Containers = List (Text × Info)

pub data PoolError : Type 0 where
  bad_mount create_failed start_failed : PoolError

pub data ExecError : Type 0 where
  no_container exec_create_failed exec_timeout exec_start_failed exec_inspect_failed : ExecError

abbrev pub workspace : Text
workspace = codes "/workspace"

-- The first eight bytes of the user's identifier.
abbrev pub container_name : Text → Text
container_name user = codes "whiteagent-" ++ take_bytes 8 user

network_of : Config → Text
network_of cfg =
    if not (is_empty cfg.network)
    then cfg.network
    else if not (is_empty cfg.network_mode)
    then cfg.network_mode
    else if not cfg.allow_network
    then codes "none"
    else codes "bridge"

module _ {W : Type 0} (client : Client W) (cfg : Config) where
  user_text : Text
  user_text = client.decimal cfg.container_uid ++ (b':' ∷ client.decimal cfg.container_gid)

  pub request : Text → Text → List Text → Request
  unfolding network_of user_text
  request user tenant binds =
      let size = codes "size=" ++ client.decimal cfg.tmpfs_mb ++ codes "m" in
      record {
        image = cfg.image;
        cmd = codes "sleep" ∷ codes "infinity" ∷ [];
        user = user_text;
        labels =
            (codes "org.whiteagent.managed", codes "true")
            ∷ (codes "org.whiteagent.user-id", user)
            ∷ (codes "org.whiteagent.tenant-id", tenant)
            ∷ [];
        cap_drop = codes "ALL" ∷ [];
        security_opt = codes "no-new-privileges" ∷ [];
        readonly_rootfs = true;
        network_mode = network_of cfg;
        networks = (if is_empty cfg.network then [] else cfg.network ∷ []);
        nano_cpus = cfg.nano_cpus;
        memory = (cfg.memory_mb * 1024 * 1024) % 2 ^ 64;
        pids_limit = cfg.pids_limit;
        ulimits = (codes "nofile", (1024, 2048)) ∷ [];
        tmpfs =
            (codes "/tmp", size)
            ∷ (codes "/var/tmp", size)
            ∷ (
              codes "/message",
              size ++ codes ",uid=" ++ client.decimal cfg.container_uid ++ codes ",mode=0700",
            )
            ∷ [];
        binds = binds;
        env = cfg.env;
      }

  -- Errors of both calls are ignored.
  stop_and_remove : Text → W → W
  stop_and_remove id w = (client.remove id (client.stop id cfg.stop_timeout w).1).1

  chown_all : List Mount → W → W
  chown_all [] w = w
  chown_all (m ∷ ms) w =
      chown_all ms
        (if m.read_only then w else client.chown m.source cfg.container_uid cfg.container_gid w)

  started : Text → Text → ℕ → Containers → Bool × W → Result PoolError Text × Containers × W
  started user id now cs (true, w) =
      (ok workspace, store user (record { id = id; last_used = now; active = 0 }) cs, w)
  started user id now cs (false, w) = (err start_failed, cs, (client.remove id w).1)

  created : Text → ℕ → Containers → Option Text × W → Result PoolError Text × Containers × W
  unfolding started
  created user now cs (none, w) = (err create_failed, cs, w)
  created user now cs (some id, w) = started user id now cs (client.start id w)

  pub create_container :
      Text
      → Text
      → List Mount
      → List Text
      → ℕ
      → Containers
      → W
      → Result PoolError Text × Containers × W
  unfolding request chown_all created
  create_container user tenant mounts binds now cs w =
      created user now cs
        (client.create (container_name user) (request user tenant binds) (chown_all mounts w))

  -- Whether the container runs with the wanted binds.
  unfoldable pub reusable : List Text → Option Inspected → Bool
  reusable binds none = false
  reusable binds (some i) = text_eq i.status (codes "running") && binds_match i.binds binds

  reuse_or_replace :
      Bool
      → Info
      → Text
      → Text
      → List Mount
      → List Text
      → ℕ
      → Containers
      → W
      → Result PoolError Text × Containers × W
  unfolding create_container stop_and_remove
  reuse_or_replace true ci user tenant mounts binds now cs w =
      (ok workspace, store user (record ci { last_used = now }) cs, w)
  reuse_or_replace false ci user tenant mounts binds now cs w =
      create_container user tenant mounts binds now (erase user cs) (stop_and_remove ci.id w)

  by_existing :
      Option Info
      → Text
      → Text
      → List Mount
      → List Text
      → ℕ
      → Containers
      → W
      → Result PoolError Text × Containers × W
  unfolding reuse_or_replace
  by_existing none user tenant mounts binds now cs w =
      create_container user tenant mounts binds now cs w
  by_existing (some ci) user tenant mounts binds now cs w =
      let (found, w1) = client.inspect ci.id w in
      reuse_or_replace (reusable binds found) ci user tenant mounts binds now cs w1

  abbrev pub wanted_binds : List Mount → List Text
  wanted_binds mounts =
      mounts_to_binds (translate_mount_paths cfg.host_data_dir cfg.container_data_dir mounts)

  pub ensure :
      Text → Text → List Mount → ℕ → Containers → W → Result PoolError Text × Containers × W
  unfolding by_existing
  ensure user tenant mounts now cs w =
      if validate_mounts mounts
      then by_existing (load user cs) user tenant mounts (wanted_binds mounts) now cs w
      else (err bad_mount, cs, w)

  released : Option Info → Text → Containers → W → Containers × W
  unfolding stop_and_remove
  released none user cs w = (cs, w)
  released (some ci) user cs w = (erase user cs, stop_and_remove ci.id w)

  pub release : Text → Containers → W → Containers × W
  unfolding released
  release user cs w = released (load user cs) user cs w

  abbrev pub is_idle : ℕ → Info → Bool
  is_idle now ci = not (ltb 0 ci.active) && ltb cfg.idle_timeout (now - ci.last_used)

  sweep_entries : ℕ → List (Text × Info) → Containers → W → Containers × W
  unfolding release
  sweep_entries now [] cs w = (cs, w)
  sweep_entries now ((user, ci) ∷ es) cs w =
      let (cs', w') = if is_idle now ci then release user cs w else (cs, w) in
      sweep_entries now es cs' w'

  -- Each container's test and its release are taken together; what comes between them is in Pool/Sweep.antt.
  pub sweep_once : ℕ → Containers → W → Containers × W
  unfolding sweep_entries
  sweep_once now cs w = sweep_entries now cs cs w

  mark_busy : Option Info → Text → Containers → Option Info × Containers
  mark_busy none user cs = (none, cs)
  mark_busy (some ci) user cs = (some ci, store user (record ci { active = suc ci.active }) cs)

  -- `exec` up to its first call: the container is marked as busy.
  pub exec_begin : Text → Containers → Option Info × Containers
  unfolding mark_busy
  exec_begin user cs = mark_busy (load user cs) user cs

  mark_done : Option Info → Text → Info → ℕ → Containers → Containers
  mark_done none user held now cs = cs
  mark_done (some ci) user held now cs =
      if text_eq ci.id held.id
      then store user (record ci { active = ci.active - 1; last_used = now }) cs
      else cs

  -- The deferred function of `exec`, on the object that it holds.
  pub exec_end : Text → Info → ℕ → Containers → Containers
  unfolding mark_done
  exec_end user held now cs = mark_done (load user cs) user held now cs

  exec_body : ExecRequest → ExecBody
  unfolding user_text
  exec_body req = record {
    cmd = req.command ∷ req.args;
    working_dir = (if is_empty req.work_dir then codes "/home/whiteagent" else req.work_dir);
    env = req.env;
    user = user_text;
    attach_stdout = true;
    attach_stderr = true;
    tty = false;
  }

  inspected : Text × Text → Option ℕ × W → Result ExecError ExecResult × W
  inspected out (none, w) = (err exec_inspect_failed, w)
  inspected out (some code, w) =
      (ok (record { stdout = out.0; stderr = out.1; exit_code = code }), w)

  ran : Text → Option (Text × Text) × W → Result ExecError ExecResult × W
  unfolding inspected
  ran exec (none, w) = (err (if client.timed_out w then exec_timeout else exec_start_failed), w)
  ran exec (some out, w) = inspected out (client.exec_inspect exec w)

  prepared : Option Text × W → Result ExecError ExecResult × W
  unfolding ran
  prepared (none, w) = (err exec_create_failed, w)
  prepared (some exec, w) =
      ran exec (client.exec_start exec ((cfg.max_output_mb * 1024 * 1024) % 2 ^ 64) w)

  -- The calls of `exec` in between.
  pub exec_calls : Option Info → ExecRequest → W → Result ExecError ExecResult × W
  unfolding exec_body prepared
  exec_calls none req w = (err no_container, w)
  exec_calls (some ci) req w = prepared (client.exec_create ci.id (exec_body req) w)

  -- Containers of services are skipped.
  clean_entries : List ListEntry → W → W
  unfolding stop_and_remove
  clean_entries [] w = w
  clean_entries (e ∷ es) w =
      clean_entries es (if is_empty e.service_label then stop_and_remove e.id w else w)

  listed_orphans : Option (List ListEntry) × W → W
  unfolding clean_entries
  listed_orphans (none, w) = w
  listed_orphans (some es, w) = clean_entries es w

  pub clean_orphans : W → W
  unfolding listed_orphans
  clean_orphans w = listed_orphans (client.list_managed w)

  rebuild_entries : ℕ → List ListEntry → Containers → Containers
  rebuild_entries now [] cs = cs
  rebuild_entries now (e ∷ es) cs = rebuild_entries now es (
      if text_eq e.state (codes "running") && not (is_empty e.user_label)
      then store e.user_label (record { id = e.id; last_used = now; active = 0 }) cs
      else cs)

  listed_running : ℕ → Containers → Option (List ListEntry) × W → Containers × W
  unfolding rebuild_entries
  listed_running now cs (none, w) = (cs, w)
  listed_running now cs (some es, w) = (rebuild_entries now es cs, w)

  pub rebuild_from_labels : ℕ → Containers → W → Containers × W
  unfolding listed_running
  rebuild_from_labels now cs w = listed_running now cs (client.list_managed w)

  release_all : List (Text × Info) → Containers → W → Containers × W
  unfolding release
  release_all [] cs w = (cs, w)
  release_all ((user, ci) ∷ es) cs w = let (cs', w') = release user cs w in release_all es cs' w'

  pub stop_all : Containers → W → Containers × W
  unfolding release_all
  stop_all cs w = release_all cs cs w
