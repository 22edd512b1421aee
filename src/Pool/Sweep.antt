-- ===== src/Pool/Sweep.antt =====
-- pkg/plugins/sandbox/docker/pool.go: which containers `sweepOnce` releases.
use whiteagent.Common.{
  ℕ, ◌+◌, ◌<◌, ◌≤◌, ◌⊎◌, ◌↔◌, true, false, Bool-cases, inl, inr, Option, none, some, [], ◌∷◌, Text,
  text_eq_refl, text_eq_ne, if◌then◌else◌, load, load-erase, load-erase_other, text_cases, ◌≡◌, ◌≢◌,
  refl, sym, ap, ◌∙◌, subst, arith,
}
use whiteagent.Pool.{
  Client, Config, Info, Containers, is_idle, release, released, sweep_entries, sweep_once,
}

-- No key is bound twice.
abbrev pub Distinct : Containers → Type 0
Distinct [] = Unit
Distinct ((k, ci) ∷ cs) = (load k cs ≡ none) × Distinct cs

module _ {W : Type 0} (client : Client W) (cfg : Config) (now : ℕ) where
  -- What is left of a binding.
  abbrev pub kept : Option Info → Option Info
  kept none = none
  kept (some ci) = if is_idle client cfg now ci then none else some ci

  -- What the entries of the loop do to a binding.
  abbrev swept : Option Info → Option Info → Option Info
  swept none there = there
  swept (some ci) there = if is_idle client cfg now ci then none else there

  release-load_self :
      (user : Text) (cs : Containers) (w : W) → load user (release client cfg user cs w).0 ≡ none
  unfolding release
  release-load_self user cs w = by_load (load user cs) refl
    where
      by_load :
          (o : Option Info)
          → load user cs ≡ o
          → load user (released client cfg o user cs w).0 ≡ none
      by_load none e = e
      by_load (some ci) e = load-erase user cs

  release-load_other :
      (user other : Text) (cs : Containers) (w : W)
      → other ≢ user
      → load other (release client cfg user cs w).0 ≡ load other cs
  unfolding release released
  release-load_other user other cs w ne = by_load (load user cs)
    where
      by_load : (o : Option Info) → load other (released client cfg o user cs w).0 ≡ load other cs
      by_load none = refl
      by_load (some ci) = load-erase_other other user cs ne

  -- One round of the loop.
  abbrev round : Text → Info → Containers → W → Containers × W
  round user ci cs w = if is_idle client cfg now ci then release client cfg user cs w else (cs, w)

  round-load_self :
      (user : Text) (ci : Info) (cs : Containers) (w : W)
      → load user (round user ci cs w).0 ≡ swept (some ci) (load user cs)
  round-load_self user ci cs w = elim (Bool-cases (is_idle client cfg now ci)) [
    | inl idle ↦ rw idle (release-load_self user cs w)
    | inr busy ↦ rw busy refl
  ]

  round-load_other :
      (user other : Text) (ci : Info) (cs : Containers) (w : W)
      → other ≢ user
      → load other (round user ci cs w).0 ≡ load other cs
  round-load_other user other ci cs w ne = elim (Bool-cases (is_idle client cfg now ci)) [
    | inl idle ↦ rw idle (release-load_other user other cs w ne)
    | inr busy ↦ rw busy refl
  ]

  load-cons_self :
      (user : Text) (ci : Info) (cs : Containers) → load user ((user, ci) ∷ cs) ≡ some ci
  unfolding load
  load-cons_self user ci cs = rw (text_eq_refl user) refl

  load-cons_other :
      (other user : Text) (ci : Info) (cs : Containers)
      → other ≢ user
      → load other ((user, ci) ∷ cs) ≡ load other cs
  unfolding load
  load-cons_other other user ci cs ne = rw (text_eq_ne other user ne) refl

  sweep_entries-load :
      (es cs : Containers) (w : W) (user : Text)
      → Distinct es
      → load user (sweep_entries client cfg now es cs w).0 ≡ swept (load user es) (load user cs)
  unfolding sweep_entries
  sweep_entries-load [] cs w user d = unfold load in refl
  sweep_entries-load ((k, ci) ∷ es) cs w user d =
      let after = round k ci cs w in
      let rest = sweep_entries-load es after.0 after.1 user d.1 in
      elim (text_cases user k) [
        | inl same ↦
            rest
            ∙ ap (λ o. swept o (load user after.0)) (ap (λ t. load t es) same ∙ d.0)
            ∙ subst (λ t. load user (round t ci cs w).0 ≡ swept (some ci) (load user cs)) same
                (round-load_self user ci cs w)
            ∙ ap (λ o. swept o (load user cs))
                (sym (ap (λ t. load user ((t, ci) ∷ es)) (sym same) ∙ load-cons_self user ci es))
        | inr other ↦
            rest
            ∙ ap (λ o. swept (load user es) o) (round-load_other k user ci cs w other)
            ∙ ap (λ o. swept o (load user cs)) (sym (load-cons_other user k ci es other))
      ]

  swept_self : (o : Option Info) → swept o o ≡ kept o
  swept_self none = refl
  swept_self (some ci) = refl

sweep_once-kept :
    {W : Type 0} (client : Client W) (cfg : Config) (now : ℕ) (cs : Containers) (w : W)
    (user : Text)
    → Distinct cs
    → load user (sweep_once client cfg now cs w).0 ≡ kept client cfg now (load user cs)
unfolding sweep_once
sweep_once-kept client cfg now cs w user d =
    sweep_entries-load client cfg now cs cs w user d ∙ swept_self client cfg now (load user cs)

same_info : {ci cj : Info} → ◌≡◌ {A = Option Info} (some ci) (some cj) → ci ≡ cj
same_info h = cc

kept-some :
    {W : Type 0} (client : Client W) (cfg : Config) (now : ℕ) (o : Option Info) (ci : Info)
    → (kept client cfg now o ≡ some ci)
      ↔ ((o ≡ some ci) × ((0 < ci.active) ⊎ (now ≤ ci.last_used + cfg.idle_timeout)))
kept-some client cfg now none ci = (λ h. cc, λ h. cc)
kept-some client cfg now (some cj) ci = elim (Bool-cases (is_idle client cfg now cj)) [
  | inl idle ↦ rw idle (λ h. cc, λ (same, fresh). absurd (stale idle (same_info same) fresh))
  | inr busy ↦ rw busy (λ h. (h, fresh_of busy (same_info h)), λ (same, fresh). same)
]
  where
    stale :
        is_idle client cfg now cj ≡ true
        → cj ≡ ci
        → (0 < ci.active) ⊎ (now ≤ ci.last_used + cfg.idle_timeout)
        → ⊥
    stale idle same fresh =
        let idle' : is_idle client cfg now ci ≡ true =
          subst (λ c. is_idle client cfg now c ≡ true) same idle in
        ground arith

    fresh_of :
        is_idle client cfg now cj ≡ false
        → cj ≡ ci
        → (0 < ci.active) ⊎ (now ≤ ci.last_used + cfg.idle_timeout)
    fresh_of busy same =
        let busy' : is_idle client cfg now ci ≡ false =
          subst (λ c. is_idle client cfg now c ≡ false) same busy in
        ground arith

-- After a sweep that no other call breaks into, a user's container is in the pool exactly if it was there,
-- with the same data, and a command runs in it or it was used within the idle timeout. No user has two
-- containers.
pub sweep_once_lem :
    {W : Type 0} (client : Client W) (cfg : Config) (now : ℕ) (cs : Containers) (w : W)
    (user : Text) (ci : Info)
    → Distinct cs
    → (load user (sweep_once client cfg now cs w).0 ≡ some ci)
      ↔ ((load user cs ≡ some ci) × ((0 < ci.active) ⊎ (now ≤ ci.last_used + cfg.idle_timeout)))
sweep_once_lem client cfg now cs w user ci d =
    rw (sweep_once-kept client cfg now cs w user d) (kept-some client cfg now (load user cs) ci)
