-- ===== src/Backend/Containerd/Missing.antt =====
-- When the description of a failed mount names nothing.
use container_image_csi_driv.Base.{
  ℕ, nat_beq, nat_beq_iff, ◌≡◌, ◌↔◌, refl, false, true, false, sym, ap, subst, ◌∙◌, length, drop,
  drop-append, List, [], ◌∷◌, ◌++◌, Option, none, arith, All, if◌then◌else◌, Bool-cases, inl, inr,
}
use container_image_csi_driv.Text.{Text, codes, text_eq}
use container_image_csi_driv.Strings.{has_prefix, split, has_prefix_sound, has_prefix-append}
use container_image_csi_driv.Strings.Join.{join, lacks, split-join, split-Parts}
use container_image_csi_driv.Backend.Containerd.Mounts.{
  Mount, prefixes, dirs_of, dirs_error, options_error, mounts_error, describe_mounts,
}

abbrev lower_dir : Text
lower_dir = codes "lowerdir="

abbrev upper_dir : Text
upper_dir = codes "upperdir="

abbrev work_dir : Text
work_dir = codes "workdir="

abbrev NoColon : Text → Type 0
NoColon s = lacks b':' s ≡ true

-- Keys with different first bytes do not begin the same option.
one_key :
    (c d : ℕ) (p q opt : Text)
    → nat_beq c d ≡ false
    → has_prefix opt (c ∷ p) ≡ true
    → has_prefix opt (d ∷ q) ≡ false
unfolding has_prefix
one_key c d p q [] e h = refl
one_key c d p q (x ∷ opt) e h = ground (arith, nat_beq_iff x c)

module _ (lstat : Text → Option Text) where
  abbrev pub Present : Text → Type 0
  Present path = lstat path ≡ none

  -- However the option is written as this key and directories with colons between them, one at least
  -- and none with a colon in it: they are all there.
  abbrev pub AllUnder : Text → Text → Type 0
  AllUnder key opt =
      (dir : Text) (dirs : List Text)
      → NoColon dir
      → All NoColon dirs
      → opt ≡ key ++ join (dir ∷ dirs) b':'
      → All Present (dir ∷ dirs)

  abbrev pub OptionPresent : Text → Type 0
  OptionPresent opt = AllUnder lower_dir opt × AllUnder upper_dir opt × AllUnder work_dir opt

  -- An overlay needs the directories of its options, any other mount its source.
  abbrev pub MountPresent : Mount → Type 0
  MountPresent m =
      if text_eq m.fs_type (codes "overlay") then All OptionPresent m.options else Present m.source

  dirs_error_iff : (ps : List Text) → (dirs_error lstat ps ≡ none) ↔ All Present ps
  unfolding dirs_error
  dirs_error_iff [] = (λ _. tt, λ _. refl)
  dirs_error_iff (p ∷ ps) = ground (arith, dirs_error_iff ps)

  module _ (key opt : Text) where
    abbrev layers : List Text
    layers = split (drop (length key) opt) b':'

    AllUnder-layers : has_prefix opt key ≡ true → AllUnder key opt → All Present layers
    AllUnder-layers h all =
        let p = split-Parts b':' (drop (length key) opt) in
        subst (All Present) (sym p.read) (
          all p.head p.tail p.head_lacks p.tail_lacks
            (has_prefix_sound opt key h ∙ ap (λ t. key ++ t) p.joined))

    layers-AllUnder : All Present layers → AllUnder key opt
    layers-AllUnder all dir dirs no_colon no_colons e =
        subst (All Present)
          (ap (λ t. split (drop (length key) t) b':') e
            ∙ ap (λ t. split t b':') (drop-append key (join (dir ∷ dirs) b':'))
            ∙ split-join b':' dir dirs no_colon no_colons)
          all

    layers_iff : has_prefix opt key ≡ true → (dirs_error lstat layers ≡ none) ↔ AllUnder key opt
    layers_iff h = (
      λ e. layers-AllUnder ((dirs_error_iff layers).0 e),
      λ all. (dirs_error_iff layers).1 (AllUnder-layers h all),
    )

    other-AllUnder : has_prefix opt key ≡ false → AllUnder key opt
    other-AllUnder h dir dirs no_colon no_colons e =
        absurd (cc (h, has_prefix-append key (join (dir ∷ dirs) b':'), e))

  option_iff : (opt : Text) → (dirs_error lstat (dirs_of prefixes opt) ≡ none) ↔ OptionPresent opt
  unfolding dirs_of
  option_iff opt = elim (Bool-cases (has_prefix opt lower_dir)) [
    | inl l ↦
        rw (l, dirs_of)
          (
            λ e. (
              (layers_iff lower_dir opt l).0 e,
              other-AllUnder upper_dir opt (one_key b'l' b'u' _ _ opt refl l),
              other-AllUnder work_dir opt (one_key b'l' b'w' _ _ opt refl l),
            ),
            λ o. (layers_iff lower_dir opt l).1 o.0,
          )
    | inr nl ↦ elim (Bool-cases (has_prefix opt upper_dir)) [
      | inl u ↦
          rw (nl, u, dirs_of)
            (
              λ e. (
                other-AllUnder lower_dir opt nl,
                (layers_iff upper_dir opt u).0 e,
                other-AllUnder work_dir opt (one_key b'u' b'w' _ _ opt refl u),
              ),
              λ o. (layers_iff upper_dir opt u).1 o.1,
            )
      | inr nu ↦ elim (Bool-cases (has_prefix opt work_dir)) [
        | inl w ↦
            rw (nl, nu, w, dirs_of)
              (
                λ e. (
                  other-AllUnder lower_dir opt nl,
                  other-AllUnder upper_dir opt nu,
                  (layers_iff work_dir opt w).0 e,
                ),
                λ o. (layers_iff work_dir opt w).1 o.2,
              )
        | inr nw ↦
            rw (nl, nu, nw, dirs_of)
              (
                λ e. (
                  other-AllUnder lower_dir opt nl,
                  other-AllUnder upper_dir opt nu,
                  other-AllUnder work_dir opt nw,
                ),
                λ o. (dirs_error_iff []).1 tt,
              )
      ]
    ]
  ]

  options_error_iff :
      (options : List Text) → (options_error lstat options ≡ none) ↔ All OptionPresent options
  unfolding options_error
  options_error_iff [] = (λ _. tt, λ _. refl)
  options_error_iff (opt ∷ options) = ground (arith, option_iff opt, options_error_iff options)

  mounts_error_iff :
      (mounts : List Mount) → (mounts_error lstat mounts ≡ none) ↔ All MountPresent mounts
  unfolding mounts_error
  mounts_error_iff [] = (λ _. tt, λ _. refl)
  mounts_error_iff (m ∷ mounts) =
      ground (arith, options_error_iff m.options, mounts_error_iff mounts)

  -- The description of a mount that failed is empty exactly if the target, every source of a mount
  -- that is no overlay, and every directory of the overlays are there: those that stand, with colons
  -- between them, after `lowerdir=`, `upperdir=` or `workdir=` in an option.
  pub describe_mounts_iff :
      (mounts : List Mount) (target : Text)
      → (describe_mounts lstat mounts target ≡ []) ↔ (All MountPresent mounts × Present target)
  unfolding describe_mounts
  describe_mounts_iff mounts target = ground (arith, mounts_error_iff mounts)
