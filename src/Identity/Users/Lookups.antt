-- ===== src/Identity/Users/Lookups.antt =====
-- internal/domain/service/identity/user_resolver.go: which users `ResolveUsers` finds.
use whiteagent.Common.{
  ◌||◌, Bool, true, false, Bool-cases, ◌⊎◌, inl, inr, Option, Option-cases, none, some, List, [],
  ◌∷◌, ◌++◌, In, In-cons, here, there, In-nil, In-snoc, In-last, Text, text_eq, text_eq_sound,
  text_cases, if◌then◌else◌, is_empty, load, store, load-store, load-store_other, ◌≡◌, ◌≢◌, refl,
  sym, ap, ◌∙◌, subst, arith,
}
use whiteagent.Store.{User, Db, Reply, ok, live_user, attempt, statement, query, get_user}
use whiteagent.Identity.Users.{
  Users, name_key, is_seen, noted, collect, fetched, fetch_all, resolve_users,
}

module _ (tenant : Text) (db : Db) where
  abbrev live : Text → Option User
  live u = live_user tenant u db

  -- The users of a list are those of the store.
  abbrev pub AreLive : Users → Type 0
  AreLive found = (u : Text) (x : User) → load u found ≡ some x → live u ≡ some x

  -- And so are the users of the tenant in the cache.
  abbrev pub IsCurrent : Users → Type 0
  IsCurrent cache =
      (u : Text) (x : User) → load (name_key tenant u) cache ≡ some x → live u ≡ some x

  -- A user is found as the store has it, or is still to be fetched.
  abbrev Handled : Text → Users → List Text → Type 0
  Handled u found fetch = In u fetch ⊎ (load u found ≡ live u)

  store-AreLive :
      (u : Text) (x : User) (found : Users)
      → live u ≡ some x
      → AreLive found
      → AreLive (store u x found)
  store-AreLive u x found h a v y k = elim (text_cases v u) [
    | inl same ↦
        subst (λ t. live t ≡ some y) (sym same)
          (h ∙ sym (load-store u x found) ∙ ap (λ t. load t (store u x found)) (sym same) ∙ k)
    | inr other ↦ a v y (sym (load-store_other v u x found other) ∙ k)
  ]

  store-Handled :
      (u v : Text) (x : User) (found : Users) (fetch : List Text)
      → live u ≡ some x
      → Handled v found fetch
      → Handled v (store u x found) fetch
  store-Handled u v x found fetch h (inl waits) = inl waits
  store-Handled u v x found fetch h (inr done) = elim (text_cases v u) [
    | inl same ↦
        inr
          (subst (λ t. load t (store u x found) ≡ live t) (sym same) (load-store u x found ∙ sym h))
    | inr other ↦ inr (load-store_other v u x found other ∙ done)
  ]

  key_injective : (t u v : Text) → u ≢ v → t ++ (b':' ∷ u) ≢ t ++ (b':' ∷ v)
  key_injective [] u v ne e = ne (cc)
  key_injective (c ∷ t) u v ne e = key_injective t u v ne (cc)

  store-IsCurrent :
      (u : Text) (x : User) (cache : Users)
      → live u ≡ some x
      → IsCurrent cache
      → IsCurrent (store (name_key tenant u) x cache)
  store-IsCurrent u x cache h a v y k = elim (text_cases v u) [
    | inl same ↦
        subst (λ t. live t ≡ some y) (sym same)
          (h
            ∙ sym (load-store (name_key tenant u) x cache)
            ∙ ap (λ t. load (name_key tenant t) (store (name_key tenant u) x cache)) (sym same)
            ∙ k)
    | inr other ↦ a v y (
        sym (
          load-store_other (name_key tenant v) (name_key tenant u) x cache
            (key_injective tenant v u other))
        ∙ k)
  ]

  -- Without faults the store answers with the live user.
  get_user-live : (u : Text) → db.faults ≡ [] → get_user tenant u db ≡ (ok (live u), db)
  unfolding get_user query statement attempt
  get_user-live u quiet = ap (λ fs. attempt fs db (λ d. (ok (live_user tenant u d), d))) quiet

  is_seen-In : (u : Text) (seen : List Text) → is_seen u seen ≡ true → In u seen
  is_seen-In u [] h = cc
  is_seen-In u (s ∷ ss) h = elim (Bool-cases (text_eq u s)) [
    | inl hit ↦ here (text_eq_sound u s hit)
    | inr miss ↦ there (is_seen-In u ss (ground (arith, h, miss)))
  ]

  abbrev AllHandled : List Text → Users → List Text → Type 0
  AllHandled seen found fetch = (v : Text) → In v seen → Handled v found fetch

  snoc-Handled :
      (u v : Text) (found : Users) (fetch : List Text)
      → Handled v found fetch
      → Handled v found (fetch ++ (u ∷ []))
  snoc-Handled u v found fetch (inl waits) = inl (In-snoc v u fetch waits)
  snoc-Handled u v found fetch (inr done) = inr done

  noted_lem :
      (u : Text) (o : Option User) (seen : List Text) (found : Users) (fetch : List Text)
      → (o ≢ none → live u ≡ o)
      → AreLive found
      → AllHandled seen found fetch
      → let (f, q) = noted o u found fetch in AreLive f × AllHandled (u ∷ seen) f q
  unfolding noted
  noted_lem u none seen found fetch h a hs = (
    a,
    λ v i. elim (In-cons i) [
      | inl e ↦ inl (subst (λ t. In t (fetch ++ (u ∷ []))) (sym e) (In-last u fetch))
      | inr later ↦ snoc-Handled u v found fetch (hs v later)
    ],
  )
  noted_lem u (some x) seen found fetch h a hs =
      let is : live u ≡ some x = h (λ e. cc) in
      (
        store-AreLive u x found is a,
        λ v i. elim (In-cons i) [
          | inl e ↦ inr (
              subst (λ t. load t (store u x found) ≡ live t) (sym e)
                (load-store u x found ∙ sym is))
          | inr later ↦ store-Handled u v x found fetch is (hs v later)
        ],
      )

  current_at :
      (cache : Users)
      → IsCurrent cache
      → (u : Text) → load (name_key tenant u) cache ≢ none
      → live u ≡ load (name_key tenant u) cache
  current_at cache c u ne = elim (Option-cases (load (name_key tenant u) cache)) [
    | inl out ↦ absurd (ne out)
    | inr (x, there') ↦ c u x there' ∙ sym there'
  ]

  -- What the first loop leaves for the identifiers seen before it, and for those of its list.
  abbrev Collected : List Text → List Text → Users × List Text → Type 0
  Collected seen ids (f, q) =
      AreLive f × AllHandled seen f q × ((v : Text) → In v ids → is_empty v ≡ false → Handled v f q)

  collect_lem :
      (ids seen : List Text) (cache found : Users) (fetch : List Text)
      → IsCurrent cache
      → AreLive found
      → AllHandled seen found fetch
      → Collected seen ids (collect tenant ids seen cache found fetch)
  unfolding collect
  collect_lem [] seen cache found fetch c a hs = (a, hs, λ v i n. absurd (In-nil v i))
  collect_lem (u ∷ us) seen cache found fetch c a hs =
      elim (Bool-cases (is_empty u || is_seen u seen)) [
        | inl skip ↦
            let (a', hs', ids') = collect_lem us seen cache found fetch c a hs in
            subst (Collected seen (u ∷ us)) (sym (ap round skip)) (
              a',
              hs',
              λ v i n. elim (In-cons i) [
                | inl e ↦
                    let filled : is_empty u ≡ false = subst (λ t. is_empty t ≡ false) e n in
                    hs' v (
                      subst (λ t. In t seen) (sym e)
                        (is_seen-In u seen (ground (arith, skip, filled))))
                | inr later ↦ ids' v later n
              ],
            )
        | inr take ↦
            let o = load (name_key tenant u) cache in
            let (a1, hs1) = noted_lem u o seen found fetch (current_at cache c u) a hs in
            let (a', hs', ids') =
              collect_lem us (u ∷ seen) cache (noted o u found fetch).0 (noted o u found fetch).1 c
                a1 hs1 in
            subst (Collected seen (u ∷ us)) (sym (ap round take)) (
              a',
              λ v i. hs' v (there i),
              λ v i n. elim (In-cons i) [ inl e ↦ hs' v (here e) | inr later ↦ ids' v later n ],
            )
      ]
    where
      round : Bool → Users × List Text
      round b =
          let (f, q) =
            if b then (found, fetch) else noted (load (name_key tenant u) cache) u found fetch in
          collect tenant us (if b then seen else u ∷ seen) cache f q

  fetched_lem :
      (u : Text) (us : List Text) (o : Option User) (found cache : Users)
      → live u ≡ o
      → IsCurrent cache
      → AreLive found
      → let (f, c) = fetched tenant u (ok o) found cache in
        AreLive f × IsCurrent c × ((v : Text) → Handled v found (u ∷ us) → Handled v f us)
  unfolding fetched
  fetched_lem u us none found cache h c a = (
    a,
    c,
    λ v w. elim w [
      | inr done ↦ inr done
      | inl i ↦ elim (In-cons i) [
        | inr later ↦ inl later
        | inl e ↦ elim (Option-cases (load u found)) [
          | inl out ↦ inr (subst (λ t. load t found ≡ live t) (sym e) (out ∙ sym h))
          | inr (x, there') ↦ absurd (cc (a u x there', h))
        ]
      ]
    ],
  )
  fetched_lem u us (some x) found cache h c a = (
    store-AreLive u x found h a,
    store-IsCurrent u x cache h c,
    λ v w. elim w [
      | inr done ↦ store-Handled u v x found us h (inr done)
      | inl i ↦ elim (In-cons i) [
        | inr later ↦ inl later
        | inl e ↦
            inr (
              subst (λ t. load t (store u x found) ≡ live t) (sym e) (load-store u x found ∙ sym h))
      ]
    ],
  )

  abbrev Fetched : Users → List Text → (Users × Users) × Db → Type 0
  Fetched found us ((f, c), d) =
      AreLive f × IsCurrent c × (d ≡ db) × ((v : Text) → Handled v found us → load v f ≡ live v)

  fetch_all_lem :
      (us : List Text) (found cache : Users)
      → db.faults ≡ []
      → IsCurrent cache
      → AreLive found
      → Fetched found us (fetch_all tenant us found cache db)
  unfolding fetch_all
  fetch_all_lem [] found cache quiet c a =
      (a, c, refl, λ v w. elim w [ inl i ↦ absurd (In-nil v i) | inr done ↦ done ])
  fetch_all_lem (u ∷ us) found cache quiet c a =
      let (a1, c1, h1) = fetched_lem u us (live u) found cache refl c a in
      let next = fetched tenant u (ok (live u)) found cache in
      let (a', c', same, h') = fetch_all_lem us next.0 next.1 quiet c1 a1 in
      subst (Fetched found (u ∷ us)) (sym (ap answered (get_user-live u quiet)))
        (a', c', same, λ v w. h' v (h1 v w))
    where
      answered : Reply (Option User) × Db → (Users × Users) × Db
      answered (r, d) = let (f, c2) = fetched tenant u r found cache in fetch_all tenant us f c2 d

-- If the store does not fail and the cache has the tenant's users as the store has them, then every user
-- that `ResolveUsers` gives is the live one of the store, and each identifier asked for that is not empty is
-- given exactly if the store has a live user for it; the cache stays so, and the store as it is.
pub resolve_users_lem :
    (tenant : Text) (ids : List Text) (cache : Users) (db : Db)
    → IsCurrent tenant db cache
    → db.faults ≡ []
    → let ((found, cache'), db') = resolve_users tenant ids cache db in
      ((u : Text) (x : User) → load u found ≡ some x → live_user tenant u db ≡ some x)
      × ((u : Text) → In u ids → is_empty u ≡ false → load u found ≡ live_user tenant u db)
      × IsCurrent tenant db cache'
      × (db' ≡ db)
unfolding resolve_users load
resolve_users_lem tenant ids cache db current quiet =
    let (a, none_seen, asked) =
      collect_lem tenant db ids [] cache [] [] current (λ u x h. cc) (λ v i. absurd (In-nil v i)) in
    let start = collect tenant ids [] cache [] [] in
    let (a', c', same, done) = fetch_all_lem tenant db start.1 start.0 cache quiet current a in
    (a', λ u i n. done u (asked u i n), c', same)
