-- ===== src/Certificate/Chain/Valid.antt =====
-- `isValid`: what it takes for a certificate object to be valid.
use otmc_broker.Prelude.{
  ℕ, Text, text_eq_iff, true, List, [], ◌∷◌, Option, Option-cases, inl, inr, some, ◌≡◌, ◌≢◌, refl,
  arith, length, All, get_last?, ap, subst, sym, ◌∙◌,
}
use otmc_broker.Map
use otmc_broker.TextSet
use otmc_broker.Json.{Value, optional_text}
use otmc_broker.Pem.{split_cert_chain}
use otmc_broker.Result.{ok}
use otmc_broker.Runtime.{Runtime}
use otmc_broker.Certificate.{
  Config, Certificate, take_first, rebuild, verify_links, verify_leaf, verify_cert_chain,
  add_fingerprints, collect_cert_full_chain, load_certs, by_fingerprint, is_root, is_valid,
}
use otmc_broker.Certificate.Chain.{
  IssuedBy, InTime, verify_links-some, rebuild_sound, take_first-test,
}

module _ (r : Runtime) where
  open r use {Cert, parse_cert, fingerprint, subject, issuer, check_issued, valid_from, valid_to}

  -- A chain from a trusted, self-signed root to a certificate with the fingerprint of the client's
  -- first one.
  pub record IsTrusted (config : Config) (now : ℕ) (client_cert : Option Value) (chain : List Cert)
      : Type 0 where
    pub root : Cert
    pub rest : List Cert
    pub shape : chain ≡ root ∷ rest
    pub not_alone : rest ≢ []
    pub self_signed : subject root ≡ issuer root
    pub configured :
        TextSet.has
          (add_fingerprints r [] (split_cert_chain (some config.ca_root)))
          (fingerprint root)
        ≡ true
    pub in_time : All (InTime r now) chain
    pub issued : IssuedBy r root rest
    pub leaf : Cert
    pub leaf_last : get_last? chain ≡ some leaf
    pub expected : Cert
    pub leaf_pem : Text
    pub other_pems : List Text
    pub client_pems : split_cert_chain (optional_text client_cert) ≡ leaf_pem ∷ other_pems
    pub expected_parses : parse_cert leaf_pem ≡ some expected
    pub same_leaf : fingerprint leaf ≡ fingerprint expected

  -- The fields that `collectCertFullChain` sets when it returns true, and those that it keeps.
  collected :
      (config : Config) (c : Certificate r)
      → let (c', done) = collect_cert_full_chain r config c in
        (done ≡ true
          → c'.trusted_root_fingerprints
            ≡ add_fingerprints r [] (split_cert_chain (some config.ca_root)))
        × (c'.client_cert ≡ c.client_cert)
        × (c'.client_id ≡ c.client_id)
        × (c'.full_chain ≡ c.full_chain)
        × (c'.full_chain_map ≡ c.full_chain_map)
  unfolding collect_cert_full_chain
  collected config c = ground arith

  loaded :
      (c : Certificate r)
      → let (c', done) = load_certs r c in
        (done ≡ true
          → (root : Cert) × (rest : List Cert) × (c'.full_chain ≡ root ∷ rest)
            × (is_root r c.trusted_root_fingerprints root ≡ true))
        × (c'.client_cert ≡ c.client_cert)
        × (c'.client_id ≡ c.client_id)
        × (c'.full_chain_map ≡ c.full_chain_map)
  unfolding load_certs
  loaded c =
      elim (Option-cases (
        take_first (is_root r c.trusted_root_fingerprints)
          (Map.values (by_fingerprint r [] c.full_chain_pem)))) [
            | inl e ↦ rw (e, load_certs) (λ h. cc, refl, refl, refl)
            | inr ((root, remaining), e) ↦
                elim (Option-cases (rebuild r (length remaining) (root ∷ []) root remaining)) [
                  | inl n ↦ rw (e, load_certs) (rw (n) (λ h. cc, refl, refl, refl))
                  | inr ((chain, complete), s) ↦
                      rw (e, load_certs)
                        (rw s (
                          λ h.
                              let (rest, shape, _, _) =
                                rebuild_sound r (length remaining) (root ∷ []) root remaining chain
                                  (cc) in
                              (
                                root,
                                rest,
                                shape,
                                take_first-test (is_root r c.trusted_root_fingerprints)
                                    (Map.values (by_fingerprint r [] c.full_chain_pem)) root
                                    remaining e,
                              ),
                          refl,
                          refl,
                          refl,
                        ))
                ]
          ]

  -- The end of the chain is the certificate of the client's first PEM.
  abbrev EndsIn : List Cert → List Text → Type 0
  EndsIn chain pems =
      (pem : Text) × (others : List Text) × (expected : Cert) × (leaf : Cert) × (pems
        ≡ pem ∷ others)
      × (parse_cert pem ≡ some expected)
      × (get_last? chain ≡ some leaf)
      × (fingerprint leaf ≡ fingerprint expected)

  verify_leaf_sound :
      (chain : List Cert) (pems : List Text)
      → verify_leaf r chain pems ≡ ok true
      → EndsIn chain pems
  unfolding verify_leaf
  verify_leaf_sound chain [] h = absurd (ground arith)
  verify_leaf_sound chain (pem ∷ others) h = elim (Option-cases (parse_cert pem)) [
    | inl n ↦ absurd (ground arith)
    | inr (expected, p) ↦ elim (Option-cases (get_last? chain)) [
      | inl n ↦ absurd (ground arith)
      | inr (leaf, l) ↦ (
        pem,
        others,
        expected,
        leaf,
        refl,
        p,
        l,
        ground (arith, text_eq_iff (fingerprint leaf) (fingerprint expected)),
      )
    ]
  ]

  verify_cert_chain_sound :
      (now : ℕ) (c : Certificate r) (root : Cert) (rest : List Cert)
      → c.full_chain ≡ root ∷ rest
      → verify_cert_chain r now c ≡ ok true
      → (rest ≢ [])
        × All (InTime r now) c.full_chain
        × IssuedBy r root rest
        × EndsIn c.full_chain (split_cert_chain (optional_text c.client_cert))
  unfolding verify_cert_chain verify_links
  verify_cert_chain_sound now c root rest e h = (
    λ n. ground arith,
    rw e (ground (arith, verify_links-some r now root rest)),
    ground (arith, verify_links-some r now root rest),
    verify_leaf_sound c.full_chain (split_cert_chain (optional_text c.client_cert)) (ground arith),
  )

  -- The calls that `isValid` makes when it returns true.
  is_valid-calls :
      (config : Config) (now : ℕ) (c : Certificate r)
      → (is_valid r config now c).1 ≡ true
      → let c1 = (collect_cert_full_chain r config c).0 in
        let c2 = (load_certs r c1).0 in
        ((collect_cert_full_chain r config c).1 ≡ true)
        × ((load_certs r c1).1 ≡ true)
        × (verify_cert_chain r now c2 ≡ ok true)
        × ((is_valid r config now c).0 ≡ c2)
  unfolding is_valid
  is_valid-calls config now c h = ground arith

  pub is_valid_keeps :
      (config : Config) (now : ℕ) (c : Certificate r)
      → ((is_valid r config now c).0.client_cert ≡ c.client_cert)
        × ((is_valid r config now c).0.client_id ≡ c.client_id)
        × ((is_valid r config now c).0.full_chain_map ≡ c.full_chain_map)
  unfolding is_valid
  is_valid_keeps config now c =
      ground (arith, collected config c, loaded (collect_cert_full_chain r config c).0)

  trusted :
      (config : Config) (now : ℕ) (c c1 c2 : Certificate r)
      → c1.trusted_root_fingerprints
        ≡ add_fingerprints r [] (split_cert_chain (some config.ca_root))
      → c2.client_cert ≡ c.client_cert
      → (root : Cert) (rest : List Cert) → c2.full_chain ≡ root ∷ rest
      → is_root r c1.trusted_root_fingerprints root ≡ true
      → verify_cert_chain r now c2 ≡ ok true
      → IsTrusted config now c.client_cert c2.full_chain
  unfolding is_root
  trusted config now c c1 c2 fps cert root rest shape ok_root verified =
      let (not_alone, in_time, issued, ends) =
        verify_cert_chain_sound now c2 root rest shape verified in
      let (pem, others, expected, leaf, pems, parses, last, same) = ends in
      record {
        root = root;
        rest = rest;
        shape = shape;
        not_alone = not_alone;
        self_signed = ground (arith, text_eq_iff (subject root) (issuer root));
        configured = ground (arith, fps);
        in_time = in_time;
        issued = issued;
        leaf = leaf;
        leaf_last = last;
        expected = expected;
        leaf_pem = pem;
        other_pems = others;
        client_pems = cc (pems, ap (λ v. split_cert_chain (optional_text v)) cert);
        expected_parses = parses;
        same_leaf = same;
      }

  -- When `isValid` returns true, the object's full chain starts with a self-signed certificate that has
  -- a configured root's fingerprint, has more certificates than that, all in time, each issued by the
  -- one before it, and ends in the first certificate of the client's text.
  pub is_valid-IsTrusted :
      (config : Config) (now : ℕ) (c : Certificate r)
      → (is_valid r config now c).1 ≡ true
      → IsTrusted config now c.client_cert (is_valid r config now c).0.full_chain
  is_valid-IsTrusted config now c h =
      let (did_collect, did_load, verified, result) = is_valid-calls config now c h in
      let c1 = (collect_cert_full_chain r config c).0 in
      let c2 = (load_certs r c1).0 in
      let (fps, cert, _, _, _) = collected config c in
      let (roots, cert2, _, _) = loaded c1 in
      let (root, rest, shape, ok_root) = roots did_load in
      subst (λ d. IsTrusted config now c.client_cert d.full_chain) (sym result)
        (trusted config now c c1 c2 (fps did_collect) (cert2 ∙ cert) root rest shape ok_root
          verified)
