-- ===== src/Strings/Path.antt =====
-- filepath.Base
use container_image_csi_driv.Base.{List, [], ◌∷◌, is_empty, if◌then◌else◌}
use container_image_csi_driv.Text.{Text, codes}
use container_image_csi_driv.Strings.{split}

unfoldable pub last_filled : List Text → Text
last_filled [] = []
last_filled (p ∷ ps) = let rest = last_filled ps in if is_empty rest then p else rest

-- The last part that is not empty; "." for the empty path and "/" where all parts are empty.
unfoldable pub base_name : Text → Text
unfolding last_filled split
base_name path =
    if is_empty path
    then codes "."
    else let last = last_filled (split path b'/') in if is_empty last then codes "/" else last
