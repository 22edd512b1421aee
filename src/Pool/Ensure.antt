-- ===== src/Pool/Ensure.antt =====
-- pkg/plugins/sandbox/docker/pool.go: what `ensure` gives on each of its ways.
use whiteagent.Common.{
  ℕ, [], ◌∷◌, ◌++◌, codes, take_bytes, text_eq, text_eq_sound, if◌then◌else◌, Bool, true, false,
  Bool-cases, ◌⊎◌, inl, inr, Option, none, some, List, Text, load, erase, load-store,
  load-store_other, load-erase, load-erase_other, Result, ok, err, ◌≡◌, ◌≢◌, refl, ap, ◌∙◌, arith,
}
use whiteagent.Pool.{
  Client, Config, Info, Inspected, Request, Containers, Mount, binds_match, mounts_to_binds,
  translate_mount_paths, PoolError, bad_mount, workspace, container_name, request, reusable,
  validate_mounts, wanted_binds, chown_all, started, created, create_container, stop_and_remove,
  reuse_or_replace, by_existing, ensure,
}

module _ {W : Type 0} (client : Client W) (cfg : Config) (user tenant : Text) (mounts : List Mount)
    (now : ℕ) where
  abbrev binds : List Text
  binds = wanted_binds client cfg mounts

  -- The container that the user has, but for the time, was seen to run with the wanted binds, between two
  -- worlds.
  pub record Reused (ci : Info) (cs : Containers) (w w' : W) : Type 0 where
    pub used : ℕ
    pub old : load user cs ≡ some (record ci { last_used = used })
    pub seen : Inspected
    pub inspected : client.inspect ci.id w ≡ (some seen, w')
    pub running : seen.status ≡ codes "running"
    pub same_binds : binds_match seen.binds binds ≡ true

  -- The container was created for the user with the wanted binds, and then started, which left the world.
  pub record Started (ci : Info) (w' : W) : Type 0 where
    pub before : W
    pub created_in : W
    pub body : Request
    pub made :
        client.create (codes "whiteagent-" ++ take_bytes 8 user) body before
        ≡ (some ci.id, created_in)
    pub running : client.start ci.id created_in ≡ (true, w')
    pub unused : ci.active ≡ 0
    pub its_image : body.image ≡ cfg.image
    pub its_binds : body.binds ≡ binds
    pub its_user : load (codes "org.whiteagent.user-id") body.labels ≡ some user
    pub no_capabilities : body.cap_drop ≡ codes "ALL" ∷ []
    pub read_only_root : body.readonly_rootfs ≡ true

  -- What a way through `ensure` leaves, for a pool in which the user has no container to begin with, or
  -- one that is still good.
  abbrev Left : Containers → Containers → W → Result PoolError Text × Containers × W → Type 0
  Left cs0 cs w0 (r, cs', w') =
      ((other : Text) → other ≢ user → load other cs' ≡ load other cs)
      × ((x : Text)
          → r ≡ ok x
          → (x ≡ workspace)
            × ((ci : Info) × (load user cs' ≡ some ci)
                × (ci.last_used ≡ now)
                × (Reused ci cs0 w0 w' ⊎ Started ci w')))
      × ((e : PoolError) → r ≡ err e → load user cs' ≡ none)

  started-Left :
      (cs0 cs : Containers) (id : Text) (w0 w : W)
      → load user cs ≡ none
      → (v : W)
      → client.create (container_name user) (request client cfg user tenant binds) w ≡ (some id, v)
      → (s : Bool × W) → client.start id v ≡ s
      → Left cs0 cs w0 (started client cfg user id now cs s)
  unfolding started request load text_eq
  started-Left cs0 cs id w0 w out v made (true, w') e =
      let ci : Info = record { id = id; last_used = now; active = 0 } in
      (
        λ other ne. load-store_other other user ci cs ne,
        λ x h. (
          ground (arith, h),
          (
            ci,
            load-store user ci cs,
            refl,
            inr (record {
              before = w;
              created_in = v;
              body = request client cfg user tenant binds;
              made = made;
              running = e;
              unused = refl;
              its_image = refl;
              its_binds = refl;
              its_user = refl;
              no_capabilities = refl;
              read_only_root = refl;
            }),
          ),
        ),
        λ x h. cc,
      )
  started-Left cs0 cs id w0 w out v made (false, w') e = (λ other ne. refl, λ x h. cc, λ x h. out)

  created-Left :
      (cs0 cs : Containers) (w0 w : W)
      → load user cs ≡ none
      → (c : Option Text × W)
      → client.create (container_name user) (request client cfg user tenant binds) w ≡ c
      → Left cs0 cs w0 (created client cfg user now cs c)
  unfolding created
  created-Left cs0 cs w0 w out (none, w') e = (λ other ne. refl, λ x h. cc, λ x h. out)
  created-Left cs0 cs w0 w out (some id, w') e =
      started-Left cs0 cs id w0 w out w' e (client.start id w') refl

  create_container-Left :
      (cs0 cs : Containers) (w0 w : W)
      → load user cs ≡ none
      → Left cs0 cs w0 (create_container client cfg user tenant mounts binds now cs w)
  unfolding create_container
  create_container-Left cs0 cs w0 w out =
      created-Left cs0 cs w0 (chown_all client cfg mounts w) out _ refl

  reusable-Reused :
      (ci : Info) (cs : Containers) (w0 : W)
      → load user cs ≡ some ci
      → (found : Option Inspected × W) → client.inspect ci.id w0 ≡ found
      → reusable client cfg binds found.0 ≡ true
      → Reused (record ci { last_used = now }) cs w0 found.1
  unfolding reusable
  reusable-Reused ci cs w0 there (none, w) e good = cc
  reusable-Reused ci cs w0 there (some i, w) e good = record {
    used = ci.last_used;
    old = there;
    seen = i;
    inspected = e;
    running = text_eq_sound i.status (codes "running") (ground (arith, good));
    same_binds = ground (arith, good);
  }

  reuse_or_replace-Left :
      (reuse : Bool) (ci : Info) (cs : Containers) (w0 w : W)
      → (reuse ≡ true → Reused (record ci { last_used = now }) cs w0 w)
      → Left cs cs w0 (reuse_or_replace client cfg reuse ci user tenant mounts binds now cs w)
  unfolding reuse_or_replace
  reuse_or_replace-Left true ci cs w0 w good =
      let ci' : Info = record ci { last_used = now } in
      (
        λ other ne. load-store_other other user ci' cs ne,
        λ x h. (ground (arith, h), (ci', load-store user ci' cs, refl, inl (good refl))),
        λ x h. cc,
      )
  reuse_or_replace-Left false ci cs w0 w good =
      let left =
        create_container-Left cs (erase user cs) w0 (stop_and_remove client cfg ci.id w)
          (load-erase user cs) in
      (λ other ne. left.0 other ne ∙ load-erase_other other user cs ne, left.1, left.2)

  by_existing-Left :
      (there : Option Info) (cs : Containers) (w : W)
      → load user cs ≡ there
      → Left cs cs w (by_existing client cfg there user tenant mounts binds now cs w)
  unfolding by_existing
  by_existing-Left none cs w out = create_container-Left cs cs w w out
  by_existing-Left (some ci) cs w there =
      reuse_or_replace-Left (reusable client cfg binds (client.inspect ci.id w).0) ci cs w
        (client.inspect ci.id w).1 (reusable-Reused ci cs w there (client.inspect ci.id w) refl)

-- The bind strings of mounts.
abbrev pub bind_texts : List Mount → List Text
bind_texts [] = []
bind_texts (m ∷ ms) =
    (m.source ++ (b':' ∷ (m.target ++ (if m.read_only then codes ":ro" else [])))) ∷ bind_texts ms

mounts_to_binds-texts : (ms : List Mount) → mounts_to_binds ms ≡ bind_texts ms
unfolding mounts_to_binds
mounts_to_binds-texts [] = refl
mounts_to_binds-texts (m ∷ ms) =
    ap (λ l. (m.source ++ (b':' ∷ (m.target ++ (if m.read_only then codes ":ro" else [])))) ∷ l)
      (mounts_to_binds-texts ms)

-- On every way through `ensure` the containers of the other users stay in the pool as they were. If it
-- succeeds, the user has a container in the pool that was used now: either it is the one that the pool
-- had, and Docker said that it runs, with binds that match the wanted ones; or it was created, with the
-- wanted binds, the configured image, the user's label, no capabilities and a read-only root, and then
-- started. The wanted binds are the strings of the mounts, with their sources as the host has them. If it
-- fails, the user has none, unless a mount was refused, and then the pool is as it was.
pub ensure_lem :
    {W : Type 0} (client : Client W) (cfg : Config) (user tenant : Text) (mounts : List Mount)
    (now : ℕ) (cs : Containers) (w : W)
    → let (r, cs', w') = ensure client cfg user tenant mounts now cs w in
      (wanted_binds client cfg mounts
        ≡ bind_texts (translate_mount_paths cfg.host_data_dir cfg.container_data_dir mounts))
      × ((other : Text) → other ≢ user → load other cs' ≡ load other cs)
      × ((x : Text)
          → r ≡ ok x
          → (x ≡ workspace)
            × ((ci : Info) × (load user cs' ≡ some ci)
                × (ci.last_used ≡ now)
                × (Reused client cfg user tenant mounts now ci cs w w'
                    ⊎ Started client cfg user tenant mounts now ci w')))
      × ((e : PoolError) → r ≡ err e → ((e ≡ bad_mount) × (cs' ≡ cs)) ⊎ (load user cs' ≡ none))
unfolding ensure
ensure_lem client cfg user tenant mounts now cs w =
    let texts =
      mounts_to_binds-texts
        (translate_mount_paths cfg.host_data_dir cfg.container_data_dir mounts) in
    elim (Bool-cases (validate_mounts mounts)) [
      | inr bad ↦ rw bad (texts, λ other ne. refl, λ x h. cc, λ x h. inl (ground (arith, h), refl))
      | inl good ↦
          let left = by_existing-Left client cfg user tenant mounts now (load user cs) cs w refl in
          rw good (texts, left.0, left.1, λ x h. inr (left.2 x h))
    ]
