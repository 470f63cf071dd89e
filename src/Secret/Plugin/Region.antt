-- ===== src/Secret/Plugin/Region.antt =====
-- The region of an ECR registry, and the environment of its helper.
use container_image_csi_driv.Base.{
  ◌≡◌, refl, ap, ◌∙◌, true, List, [], ◌∷◌, ◌++◌, some, arith, inl, inr, append_assoc, Option-cases,
}
use container_image_csi_driv.Text.{Text, codes, text_eq, text_eq_iff}
use container_image_csi_driv.Strings.{contains, contains-append, split, trim_prefix, has_prefix}
use container_image_csi_driv.Secret.Registry.Ports.{Lacks, split_at}
use container_image_csi_driv.Secret.Plugin.{
  Host, EnvVar, PluginConfig, has_env, region_of, region_of_parts, enrich_ecr_environment,
  aws_region,
}

has_env-append :
    (env : List EnvVar) (name value : Text)
    → has_env (env ++ record { name = name; value = value } ∷ []) name ≡ true
unfolding has_env
has_env-append [] name value = ground (arith, text_eq_iff name name)
has_env-append (e ∷ env) name value = ground (arith, has_env-append env name value)

module _ (host : Host) where
  open host use {getenv}

  -- Enriching the environment of a helper twice is enriching it once.
  enrich_idem :
      (url : Text) (plugin : PluginConfig)
      → enrich_ecr_environment host url (enrich_ecr_environment host url plugin)
        ≡ enrich_ecr_environment host url plugin
  unfolding enrich_ecr_environment
  enrich_idem url plugin = elim (Option-cases (region_of url)) [
    | inl e ↦ ground arith
    | inr (region, e) ↦ ground (arith, has_env-append plugin.env aws_region region)
  ]

abbrev pub ecr_url : Text → Text → Text
ecr_url account region =
    codes "https://" ++ (account ++ (codes ".dkr.ecr." ++ (region ++ codes ".amazonaws.com")))

domain_parts : split (codes "amazonaws.com") b'.' ≡ codes "amazonaws" ∷ codes "com" ∷ []
unfolding split
domain_parts = refl

module _ (account region : Text) (account_plain : Lacks b'.' account)
    (region_plain : Lacks b'.' region) where
  host_parts :
      split (account ++ (codes ".dkr.ecr." ++ (region ++ codes ".amazonaws.com"))) b'.'
      ≡ account ∷ codes "dkr" ∷ codes "ecr" ∷ region ∷ codes "amazonaws" ∷ codes "com" ∷ []
  host_parts =
      split_at account (codes "dkr.ecr." ++ (region ++ codes ".amazonaws.com")) b'.' account_plain
      ∙ ap (λ (ps : List Text). account ∷ ps)
          (split_at (codes "dkr") (codes "ecr." ++ (region ++ codes ".amazonaws.com")) b'.'
              (omega arith, (omega arith, (omega arith, tt)))
            ∙ ap (λ (ps : List Text). codes "dkr" ∷ ps)
                (split_at (codes "ecr") (region ++ codes ".amazonaws.com") b'.'
                    (omega arith, (omega arith, (omega arith, tt)))
                  ∙ ap (λ (ps : List Text). codes "ecr" ∷ ps)
                      (split_at region (codes "amazonaws.com") b'.' region_plain
                        ∙ ap (λ (ps : List Text). region ∷ ps) domain_parts)))

  has_ecr : contains (ecr_url account region) (codes ".dkr.ecr.") ≡ true
  has_ecr =
      contains-append (codes "https://" ++ account) (codes ".dkr.ecr.")
        (region ++ codes ".amazonaws.com")

  has_domain : contains (ecr_url account region) (codes ".amazonaws.com") ≡ true
  has_domain = rw (append_assoc account (codes ".dkr.ecr." ++ region) (codes ".amazonaws.com")) at (
      contains-append (codes "https://" ++ (account ++ (codes ".dkr.ecr." ++ region)))
        (codes ".amazonaws.com") [])

  trimmed :
      trim_prefix (ecr_url account region) (codes "https://")
      ≡ account ++ (codes ".dkr.ecr." ++ (region ++ codes ".amazonaws.com"))
  unfolding trim_prefix has_prefix
  trimmed = refl

  -- The region of the server URL of an ECR registry, whose account and region have no dot.
  region_of-ecr_url : region_of (ecr_url account region) ≡ some region
  unfolding region_of region_of_parts text_eq
  region_of-ecr_url = rw (has_ecr, has_domain, trimmed, host_parts) refl
