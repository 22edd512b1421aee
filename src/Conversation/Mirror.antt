-- ===== src/Conversation/Mirror.antt =====
-- internal/domain/service/conversation/service.go: `storeMapping`, and when the maps of the service
-- mirror each other.
use whiteagent.Common.{
  text_cases, ℕ, inl, inr, none, some, List, Text, ◌≡◌, ◌≢◌, sym, ◌∙◌, ap, subst, load, store,
  erase, load-store, load-store_other, load-erase, load-erase_other,
}
use whiteagent.Conversation.{Service, store_mapping}

-- A chat is in a conversation exactly if the conversation is the chat's, and then the conversation's
-- tenant is known.
pub record IsMirrored (s : Service) : Type 0 where
  pub to_reverse : (k c : Text) → load k s.cache ≡ some c → load c s.reverse ≡ some k
  pub to_cache : (k c : Text) → load c s.reverse ≡ some k → load k s.cache ≡ some c
  pub has_tenant : (k c : Text) → load k s.cache ≡ some c → (t : Text) × (load c s.tenants ≡ some t)

-- The same for all chats but one, which no conversation leads to.
pub record IsMirroredBut (key : Text) (s : Service) : Type 0 where
  pub to_reverse' : (k c : Text) → k ≢ key → load k s.cache ≡ some c → load c s.reverse ≡ some k
  pub to_cache' : (k c : Text) → load c s.reverse ≡ some k → (k ≢ key) × (load k s.cache ≡ some c)
  pub has_tenant' :
      (k c : Text) → k ≢ key → load k s.cache ≡ some c → (t : Text) × (load c s.tenants ≡ some t)

pub store_mapping-IsMirrored :
    (key conv tenant : Text) (s : Service)
    → IsMirroredBut key s
    → load conv s.reverse ≡ none
    → IsMirrored (store_mapping key conv tenant s)
unfolding store_mapping
store_mapping-IsMirrored key conv tenant s but free = record {
  to_reverse = λ k c h. elim (text_cases k key) [
    | inl same ↦
        let stored = load-store key conv s.cache in
        let is : conv ≡ c =
          cc (sym stored ∙ ap (λ x. load x (store key conv s.cache)) (sym same) ∙ h) in
        subst (λ x. load x (store conv key s.reverse) ≡ some k) is
          (load-store conv key s.reverse ∙ ap some (sym same))
    | inr other ↦
        let held = sym (load-store_other k key conv s.cache other) ∙ h in
        let back = but.to_reverse' k c other held in
        load-store_other c conv key s.reverse
          (λ e. cc (sym free ∙ ap (λ x. load x s.reverse) (sym e) ∙ back))
        ∙ back
  ];
  to_cache = λ k c h. elim (text_cases c conv) [
    | inl same ↦
        let stored = load-store conv key s.reverse in
        let is : key ≡ k =
          cc (sym stored ∙ ap (λ x. load x (store conv key s.reverse)) (sym same) ∙ h) in
        subst (λ x. load x (store key conv s.cache) ≡ some c) is
          (load-store key conv s.cache ∙ ap some (sym same))
    | inr other ↦
        let held = sym (load-store_other c conv key s.reverse other) ∙ h in
        let back = but.to_cache' k c held in load-store_other k key conv s.cache back.0 ∙ back.1
  ];
  has_tenant = λ k c h. elim (text_cases c conv) [
    | inl same ↦ (
      tenant,
      ap (λ x. load x (store conv tenant s.tenants)) same ∙ load-store conv tenant s.tenants,
    )
    | inr other ↦ elim (text_cases k key) [
      | inl same ↦
          let stored = load-store key conv s.cache in
          absurd
            (other (cc (sym stored ∙ ap (λ x. load x (store key conv s.cache)) (sym same) ∙ h)))
      | inr other_key ↦
          let held = sym (load-store_other k key conv s.cache other_key) ∙ h in
          let (t, p) = but.has_tenant' k c other_key held in
          (t, load-store_other c conv tenant s.tenants other ∙ p)
    ]
  ];
}

-- A chat that is in no conversation.
pub outside-IsMirroredBut :
    (key : Text) (s : Service) → IsMirrored s → load key s.cache ≡ none → IsMirroredBut key s
outside-IsMirroredBut key s m out = record {
  to_reverse' = λ k c other h. m.to_reverse k c h;
  to_cache' = λ k c h.
      let back = m.to_cache k c h in
      ((λ e. cc (sym out ∙ ap (λ x. load x s.cache) (sym e) ∙ back)), back);
  has_tenant' = λ k c other h. m.has_tenant k c h;
}

-- A chat whose conversation is taken away, from the cache or not.
pub removed-IsMirroredBut :
    (key old : Text) (s : Service) (cache : List (Text × Text)) (serial : ℕ)
    → IsMirrored s
    → load key s.cache ≡ some old
    → ((k : Text) → k ≢ key → load k cache ≡ load k s.cache)
    → IsMirroredBut key (record {
      cache = cache;
      reverse = erase old s.reverse;
      tenants = erase old s.tenants;
      serial = serial;
    })
removed-IsMirroredBut key old s cache serial m held kept = record {
  to_reverse' = forth;
  to_cache' = back;
  has_tenant' = tenant;
}
  where
    apart : (k c : Text) → k ≢ key → load k s.cache ≡ some c → c ≢ old
    apart k c other h e =
        other
          (cc (sym (m.to_reverse k c h) ∙ ap (λ x. load x s.reverse) e ∙ m.to_reverse key old held))

    forth : (k c : Text) → k ≢ key → load k cache ≡ some c → load c (erase old s.reverse) ≡ some k
    forth k c other h =
        let h' = sym (kept k other) ∙ h in
        load-erase_other c old s.reverse (apart k c other h') ∙ m.to_reverse k c h'

    back :
        (k c : Text) → load c (erase old s.reverse) ≡ some k → (k ≢ key) × (load k cache ≡ some c)
    back k c h = elim (text_cases c old) [
      | inl same ↦ absurd (
          cc (
            sym (load-erase old s.reverse) ∙ ap (λ x. load x (erase old s.reverse)) (sym same) ∙ h))
      | inr other ↦
          let there = m.to_cache k c (sym (load-erase_other c old s.reverse other) ∙ h) in
          let away : k ≢ key = λ e. other (cc (sym there ∙ ap (λ x. load x s.cache) e ∙ held)) in
          (away, kept k away ∙ there)
    ]

    tenant :
        (k c : Text)
        → k ≢ key
        → load k cache ≡ some c
        → (t : Text) × (load c (erase old s.tenants) ≡ some t)
    tenant k c other h =
        let h' = sym (kept k other) ∙ h in
        let (t, p) = m.has_tenant k c h' in
        (t, load-erase_other c old s.tenants (apart k c other h') ∙ p)
