-- ===== src/Secret/Auth/Precedence.antt =====
-- Which entry of a docker config serves a registry.
use container_image_csi_driv.Base.{
  ◌≡◌, ◌⊎◌, inl, inr, ◌∙◌, subst, Bool-cases, Option-cases, some-injective, refl, true, false, [],
  ◌∷◌, ◌++◌, Option, none, some, arith, append-nil, All,
}
use container_image_csi_driv.Text.{Text, Text-eq, text_eq, text_eq_iff, codes}
use container_image_csi_driv.Strings.{contains-append}
use container_image_csi_driv.Dict.{get}
use container_image_csi_driv.Secret.Auth.{
  AuthConfig, DockerConfig, normalize_auth_config, fill_pair, fill_auth, with_pair, copy_entry,
  Match, nil_entry, unmatched, matched, match_of, partly, match_partly, match_registry,
}

-- No key of the config has the registry in it or stands in it.
abbrev pub Foreign : Text → DockerConfig → Type 0
Foreign registry_url = All (λ entry. partly registry_url entry.0 ≡ false)

-- What an entry with this key gives. The copy has no server address; a nil entry panics.
abbrev pub answered : Option AuthConfig → Match
answered none = nil_entry
answered (some a) = matched (normalize_auth_config (record a { server_address = [] }))

-- The config has the entry.
abbrev pub Entry : Text → Option AuthConfig → DockerConfig → Type 0
Entry k e [] = ⊥
Entry k e ((key, entry) ∷ cfg) = ((key ≡ k) × (entry ≡ e)) ⊎ Entry k e cfg

-- The order among the keys: the registry itself, with https, with http, any other.
abbrev pub Preferred : Text → DockerConfig → Text → Type 0
Preferred registry_url cfg key =
    (key ≡ registry_url)
    ⊎ ((get registry_url cfg ≡ none)
        × ((key ≡ codes "https://" ++ registry_url)
            ⊎ ((get (codes "https://" ++ registry_url) cfg ≡ none)
                × ((key ≡ codes "http://" ++ registry_url)
                    ⊎ (get (codes "http://" ++ registry_url) cfg ≡ none)))))

-- The match is the answer of an entry whose key has the registry in it or stands in it.
pub record Serves (registry_url : Text) (cfg : DockerConfig) (m : Match) : Type 0 where
  pub key : Text
  pub value : Option AuthConfig
  pub entry : Entry key value cfg
  pub near : partly registry_url key ≡ true
  pub preferred : Preferred registry_url cfg key
  pub answer : m ≡ answered value

abbrev pub Precedence : Text → DockerConfig → Match → Type 0
Precedence registry_url cfg m =
    (Foreign registry_url cfg × (m ≡ unmatched)) ⊎ Serves registry_url cfg m

partly-append : (x r : Text) → partly r (x ++ r) ≡ true
partly-append x r = let e = contains-append x r [] in ground (arith, rw (append-nil r) at e)

copied : (e : Option AuthConfig) → match_of (copy_entry e) ≡ answered e
unfolding copy_entry
copied none = refl
copied (some a) = refl

get-Entry :
    (k : Text) (e : Option AuthConfig) (cfg : DockerConfig) → get k cfg ≡ some e → Entry k e cfg
unfolding get
get-Entry k e [] h = absurd cc
get-Entry k e ((key, entry) ∷ cfg) h = elim (Bool-cases (text_eq key k)) [
  | inl same ↦ inl ((text_eq_iff key k).0 same, some-injective entry e (rw same at h))
  | inr other ↦ inr (get-Entry k e cfg (rw other at h))
]

Entry-partly :
    (r k : Text) (e : Option AuthConfig) (cfg : DockerConfig)
    → Foreign r cfg
    → Entry k e cfg
    → partly r k ≡ false
Entry-partly r k e [] f h = absurd h
Entry-partly r k e ((key, entry) ∷ cfg) f (inl (same, _)) = subst (λ x. partly r x ≡ false) same f.0
Entry-partly r k e ((key, entry) ∷ cfg) f (inr later) = Entry-partly r k e cfg f.1 later

module _ (r : Text) where
  -- What the loop finds.
  abbrev Ranged : DockerConfig → Match → Type 0
  Ranged cfg m =
      (Foreign r cfg × (m ≡ unmatched))
      ⊎ ((k : Text) × ((e : Option AuthConfig) × (Entry k e cfg
              × (partly r k ≡ true)
              × (m ≡ answered e))))

  match_partly-Ranged : (cfg : DockerConfig) → Ranged cfg (match_partly cfg r)
  unfolding match_partly
  match_partly-Ranged [] = inl (tt, refl)
  match_partly-Ranged ((k, entry) ∷ cfg) = elim (Bool-cases (partly r k)) [
    | inl near ↦ inr (k, (entry, (inl (refl, refl), near, rw near (copied entry))))
    | inr apart ↦ rw apart (elim (match_partly-Ranged cfg) [
      | inl (foreign, none_found) ↦ inl ((refl, foreign), none_found)
      | inr (j, (e, (found, near, same))) ↦ inr (j, (e, (inr found, near, same)))
    ])
  ]

  module _ (cfg : DockerConfig) where
    with_scheme :
        (x : Text) (e : Option AuthConfig) (m : Match)
        → Preferred r cfg (x ++ r)
        → get (x ++ r) cfg ≡ some e
        → m ≡ match_of (copy_entry e)
        → Serves r cfg m
    with_scheme x e m p h same = record {
      key = x ++ r;
      value = e;
      entry = get-Entry (x ++ r) e cfg h;
      near = partly-append x r;
      preferred = p;
      answer = same ∙ copied e;
    }

    Ranged-Precedence :
        (m : Match) → ((key : Text) → Preferred r cfg key) → Ranged cfg m → Precedence r cfg m
    Ranged-Precedence m p (inl foreign) = inl foreign
    Ranged-Precedence m p (inr (k, (e, (found, near, same)))) =
        inr
          record { key = k; value = e; entry = found; near = near; preferred = p k; answer = same }

    -- A config gives a registry no match exactly if no key of it has the registry in it or stands
    -- in it, whatever the order of the entries. Otherwise the match is the answer of an entry
    -- with such a key: the normalised copy of the entry without its server address, or the panic of
    -- a nil entry. The registry's own entry goes first, then the one with https:// before it, then the
    -- one with http://.
    pub match_registry-Precedence : Precedence r cfg (match_registry cfg r)
    unfolding match_registry
    match_registry-Precedence = elim (Option-cases (get r cfg)) [
      | inr (e, h) ↦ inr record {
        key = r;
        value = e;
        entry = get-Entry r e cfg h;
        near = partly-append [] r;
        preferred = inl refl;
        answer = rw (match_registry, h) (copied e);
      }
      | inl bare ↦ elim (Option-cases (get (codes "https://" ++ r) cfg)) [
        | inr (e, h) ↦ inr (
            with_scheme (codes "https://") e _ (inr (bare, inl refl)) h
              (rw (match_registry, bare, h) refl))
        | inl no_https ↦ elim (Option-cases (get (codes "http://" ++ r) cfg)) [
          | inr (e, h) ↦ inr (
              with_scheme (codes "http://") e _ (inr (bare, inr (no_https, inl refl))) h
                (rw (match_registry, bare, no_https, h) refl))
          | inl no_http ↦
              Ranged-Precedence (match_registry cfg r)
                (λ key. inr (bare, inr (no_https, inr no_http)))
                (rw (match_registry, bare, no_https, no_http) (match_partly-Ranged cfg))
        ]
      ]
    ]

module _ (r : Text) where
  copied-server_address :
      (e : Option AuthConfig) (b : AuthConfig)
      → match_of (copy_entry e) ≡ matched b
      → b.server_address ≡ []
  unfolding copy_entry normalize_auth_config fill_pair fill_auth with_pair
  copied-server_address none b h = absurd cc
  copied-server_address (some a) b h = ground arith

module _ (r : Text) (b : AuthConfig) where
  match_partly-server_address :
      (cfg : DockerConfig) → match_partly cfg r ≡ matched b → b.server_address ≡ []
  unfolding match_partly
  match_partly-server_address [] e = absurd cc
  match_partly-server_address ((k, entry) ∷ cfg) e =
      ground (arith, copied-server_address r entry b, match_partly-server_address cfg)

  first-server_address :
      (exact https http : Option (Option AuthConfig)) (m : Match)
      → (m ≡ matched b → b.server_address ≡ [])
      → (elim exact as (λ _. Match) [
        | some entry ↦ match_of (copy_entry entry)
        | none ↦ elim https [
          | some entry ↦ match_of (copy_entry entry)
          | none ↦ elim http [ some entry ↦ match_of (copy_entry entry) | none ↦ m ]
        ]
      ])
        ≡ matched b
      → b.server_address ≡ []
  first-server_address (some a) https http m h e = copied-server_address r a b e
  first-server_address none (some a) http m h e = copied-server_address r a b e
  first-server_address none none (some a) m h e = copied-server_address r a b e
  first-server_address none none none m h e = h e

  pub match_registry-server_address :
      (cfg : DockerConfig) → match_registry cfg r ≡ matched b → b.server_address ≡ []
  unfolding match_registry
  match_registry-server_address cfg e =
      first-server_address (get r cfg) (get (codes "https://" ++ r) cfg)
        (get (codes "http://" ++ r) cfg) (match_partly cfg r) (match_partly-server_address cfg) e
