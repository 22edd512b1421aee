-- ===== src/Pool/Names.antt =====
-- pkg/plugins/sandbox/docker/pool.go: the names of containers, of which Docker keeps each at most once.
use whiteagent.Common.{
  ℕ, Bool, true, false, Option, none, some, List, [], ◌∷◌, Text, codes, take_bytes, ◌++◌, load, ok,
  err, if◌then◌else◌, ◌≡◌, refl, sym, ap, ◌∙◌, subst,
}
use whiteagent.Pool.{
  Client, Config, Containers, Mount, create_failed, container_name, request, Request,
  validate_mounts, wanted_binds, chown_all, started, created, create_container, by_existing, ensure,
}

-- What Docker documents of names: a name that is in use is refused, a created container uses its name, and
-- a start or a change of a file's owner frees none.
pub record KeepsNames {W : Type 0} (client : Client W) (taken : Text → W → Bool) : Type 0 where
  pub refuses :
      (name : Text) (body : Request) (w : W)
      → taken name w ≡ true
      → (client.create name body w).0 ≡ none
  pub takes :
      (name : Text) (body : Request) (w : W) (id : Text)
      → (client.create name body w).0 ≡ some id
      → taken name (client.create name body w).1 ≡ true
  pub start_keeps :
      (name id : Text) (w : W) → taken name w ≡ true → taken name (client.start id w).1 ≡ true
  pub chown_keeps :
      (name path : Text) (uid gid : ℕ) (w : W)
      → taken name w ≡ true
      → taken name (client.chown path uid gid w) ≡ true

module _ {W : Type 0} (client : Client W) (cfg : Config) (taken : Text → W → Bool)
    (names : KeepsNames client taken) where
  chown_all-taken :
      (mounts : List Mount) (name : Text) (w : W)
      → taken name w ≡ true
      → taken name (chown_all client cfg mounts w) ≡ true
  unfolding chown_all
  chown_all-taken [] name w h = h
  chown_all-taken (m ∷ ms) name w h = chown_all-taken ms name _ (by_mode m.read_only)
    where
      by_mode :
          (b : Bool)
          → taken name
              (if b then w else client.chown m.source cfg.container_uid cfg.container_gid w)
            ≡ true
      by_mode true = h
      by_mode false = names.chown_keeps name m.source cfg.container_uid cfg.container_gid w h

  started-taken :
      (user id name : Text) (now : ℕ) (cs : Containers) (s : Bool × W) (x : Text)
      → taken name s.1 ≡ true
      → (started client cfg user id now cs s).0 ≡ ok x
      → taken name (started client cfg user id now cs s).2 ≡ true
  unfolding started
  started-taken user id name now cs (true, w) x h e = h
  started-taken user id name now cs (false, w) x h e = cc

  created-taken :
      (user : Text) (now : ℕ) (cs : Containers) (body : Request) (w : W) (c : Option Text × W)
      (x : Text)
      → client.create (container_name user) body w ≡ c
      → (created client cfg user now cs c).0 ≡ ok x
      → taken (container_name user) (created client cfg user now cs c).2 ≡ true
  unfolding created
  created-taken user now cs body w (none, w') x e h = cc
  created-taken user now cs body w (some id, w') x e h =
      started-taken user id (container_name user) now cs (client.start id w') x
        (names.start_keeps (container_name user) id w' (
          subst (λ p. taken (container_name user) p.1 ≡ true) e
            (names.takes (container_name user) body w id (ap (λ p. p.0) e))))
        h

  created-refused :
      (user : Text) (now : ℕ) (cs : Containers) (c : Option Text × W)
      → c.0 ≡ none
      → ((created client cfg user now cs c).0 ≡ err create_failed)
        × ((created client cfg user now cs c).1 ≡ cs)
  unfolding created
  created-refused user now cs (none, w) h = (refl, refl)
  created-refused user now cs (some id, w) h = cc

  ensure_new :
      (user tenant : Text) (mounts : List Mount) (now : ℕ) (cs : Containers) (w : W)
      → validate_mounts mounts ≡ true
      → load user cs ≡ none
      → ensure client cfg user tenant mounts now cs w
        ≡ create_container client cfg user tenant mounts (wanted_binds client cfg mounts) now cs w
  unfolding ensure by_existing
  ensure_new user tenant mounts now cs w good out = rw good (
      ap
        (λ o. by_existing client cfg o user tenant mounts (wanted_binds client cfg mounts) now cs w)
        out)

-- Once `ensure` has made a container for a user, it has a name that is made of the first eight bytes of
-- the user's identifier. As long as that name is in use, by then or later, `ensure` fails for every user
-- whose identifier starts with the same eight bytes and who has no container in the pool, and it leaves
-- the pool as it is. The mounts are valid, the first user has no container to begin with, and Docker keeps
-- each name at most once.
pub ensure_clash :
    {W : Type 0} (client : Client W) (cfg : Config) (taken : Text → W → Bool)
    → KeepsNames client taken
    → (first second tenant : Text) (mounts mounts' : List Mount) (now later : ℕ)
      (cs cs' : Containers) (w v : W) (x : Text)
    → take_bytes 8 first ≡ take_bytes 8 second
    → validate_mounts mounts ≡ true
    → validate_mounts mounts' ≡ true
    → load first cs ≡ none
    → (ensure client cfg first tenant mounts now cs w).0 ≡ ok x
    → taken (codes "whiteagent-" ++ take_bytes 8 first) v ≡ true
    → load second cs' ≡ none
    → let (r1, cs1, w1) = ensure client cfg first tenant mounts now cs w in
      let (r2, cs2, w2) = ensure client cfg second tenant mounts' later cs' v in
      (taken (codes "whiteagent-" ++ take_bytes 8 first) w1 ≡ true)
      × (r2 ≡ err create_failed)
      × (cs2 ≡ cs')
unfolding create_container
ensure_clash client cfg taken names first second tenant mounts mounts' now later cs cs' w v x same
      good good' out made held out' =
    let a = ensure_new client cfg taken names first tenant mounts now cs w good out in
    let b = ensure_new client cfg taken names second tenant mounts' later cs' v good' out' in
    let held' =
      chown_all-taken client cfg taken names mounts' (container_name second) v
        (subst (λ n. taken (codes "whiteagent-" ++ n) v ≡ true) same held) in
    let refused = created-refused client cfg taken names second later cs' _ (
      names.refuses (container_name second)
        (request client cfg second tenant (wanted_binds client cfg mounts')) _ held') in
    (
      subst (λ p. taken (container_name first) p.2 ≡ true) (sym a)
          (created-taken client cfg taken names first now cs _ _ _ x refl
            (ap (λ p. p.0) (sym a) ∙ made)),
      ap (λ p. p.0) b ∙ refused.0,
      ap (λ p. p.1) b ∙ refused.1,
    )
