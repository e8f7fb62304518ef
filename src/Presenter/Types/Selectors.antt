-- ===== src/Presenter/Types/Selectors.antt =====
-- The names of the methods of information requests.
use tokenbridge_monitor.Base.{
  ◌≡◌, refl, ap, ◌∙◌, sym, ◌⊎◌, inl, inr, String, Bool, true, List, [], ◌∷◌, any, find_by, All,
  All-any-not, ◌==◌, string_eq, bytes_eq, Bool-cases, beq_refl, arith,
}
use tokenbridge_monitor.Entity.{Hash}
use tokenbridge_monitor.Presenter.Types.{
  decoded, new_keccak_mapping, method_or_selector, decode_request_selector,
  arbitrary_message_methods,
}

abbrev pub is_method : String → Bool
is_method name = any (λ s. s == name) arbitrary_message_methods

-- No two of the methods have the same hash.
abbrev pub NoCollisions : (String → Hash) → Type 0
NoCollisions keccak256_text =
    (s t : String)
    → is_method s ≡ true
    → is_method t ≡ true
    → keccak256_text s ≡ keccak256_text t
    → s ≡ t

module _ (keccak256_text : String → Hash) where
  abbrev Keyed : Hash × String → Type 0
  Keyed (h, s) = (h ≡ keccak256_text s) × (is_method s ≡ true)

  abbrev has_key : Hash → Hash × String → Bool
  has_key h e = e.0 == h

  mapping-Keyed :
      (ss : List String) (m : List (Hash × String))
      → All (λ s. is_method s ≡ true) ss
      → All Keyed m
      → All Keyed (new_keccak_mapping keccak256_text ss m)
  mapping-Keyed [] m a k = k
  mapping-Keyed (s ∷ ss) m a k = mapping-Keyed ss ((keccak256_text s, s) ∷ m) a.1 ((refl, a.0), k)

  any-mapping :
      (name : String) (ss : List String) (m : List (Hash × String))
      → (any (λ s. s == name) ss ≡ true) ⊎ (any (has_key (keccak256_text name)) m ≡ true)
      → any (has_key (keccak256_text name)) (new_keccak_mapping keccak256_text ss m) ≡ true
  any-mapping name [] m (inl h) = absurd (cc h)
  any-mapping name [] m (inr h) = h
  any-mapping name (s ∷ ss) m (inr h) =
      any-mapping name ss ((keccak256_text s, s) ∷ m) (inr (ground arith))
  any-mapping name (s ∷ ss) m (inl h) = elim (Bool-cases (s == name)) [
    | inr other ↦ any-mapping name ss ((keccak256_text s, s) ∷ m) (inl (ground arith))
    | inl same ↦
        let e : s ≡ name = (string_eq.same_iff s name).0 same in
        any-mapping name ss ((keccak256_text s, s) ∷ m)
          (inr (rw (e, beq_refl (keccak256_text name)) refl))
  ]

  find-Keyed :
      NoCollisions keccak256_text
      → (name : String) (m : List (Hash × String)) → is_method name ≡ true
      → All Keyed m
      → any (has_key (keccak256_text name)) m ≡ true
      → method_or_selector keccak256_text
          (keccak256_text name)
          (find_by (has_key (keccak256_text name)) m)
        ≡ decoded name
  find-Keyed no_collisions name [] listed k h = absurd (cc h)
  find-Keyed no_collisions name ((key, s) ∷ m) listed k h =
      elim (Bool-cases (key == keccak256_text name)) [
        | inr other ↦ rw other (find-Keyed no_collisions name m listed k.1 (ground arith))
        | inl same ↦
            let e = (bytes_eq.same_iff key (keccak256_text name)).0 same in
            rw same (ap decoded (no_collisions s name k.0.1 listed (sym k.0.0 ∙ e)))
      ]

  -- The hash of the text of a method decodes to that text, where no two of the methods have the
  -- same hash.
  pub decode_request_selector-keccak :
      NoCollisions keccak256_text
      → (name : String) → is_method name ≡ true
      → decode_request_selector keccak256_text (keccak256_text name) ≡ decoded name
  unfolding decode_request_selector
  decode_request_selector-keccak no_collisions name listed =
      find-Keyed no_collisions name (new_keccak_mapping keccak256_text arbitrary_message_methods [])
        listed
        (mapping-Keyed arbitrary_message_methods []
          (All-any-not is_method arbitrary_message_methods refl) tt)
        (any-mapping name arbitrary_message_methods [] (inl listed))
