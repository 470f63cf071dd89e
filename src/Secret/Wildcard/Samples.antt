-- ===== src/Secret/Wildcard/Samples.antt =====
-- An image pattern of the ECR plugin.
use container_image_csi_driv.Base.{◌≡◌, ◌↔◌, true}
use container_image_csi_driv.Text.{Text, codes}
use container_image_csi_driv.Secret.Wildcard.{matches_pattern}
use container_image_csi_driv.Secret.Wildcard.Glob.{Glob, matches_pattern_iff}

abbrev ecr_host : Text
ecr_host = codes "1.dkr.ecr.eu.amazonaws.com"

abbrev ecr_pattern : Text
ecr_pattern = codes "*.dkr.ecr.*.amazonaws.com"

matches_pattern_iff_example :
    (matches_pattern ecr_host ecr_pattern ≡ true) ↔ Glob ecr_pattern ecr_host
matches_pattern_iff_example = matches_pattern_iff ecr_host ecr_pattern
