-- ===== src/Container/Pull.antt =====
-- container.go: `Pull`, which downloads an image that is not listed.
use zygote.Common.{Option, List, if◌then◌else◌, Bytes, codes, Outcome, returned, ◌>>=◌}
use zygote.Container.{Docker, auth_of, full_name, tagged, is_listed, fatal_if_err, fatal_if_failed}

module _ {W : Type 0} (k : Docker W) where
  unfoldable pub fetch : Bytes → W × Option (Bytes → Option Bytes) → Outcome W
  unfolding auth_of full_name fatal_if_err
  fetch image (w, auths) = do
    v ← fatal_if_err k (codes "Image pull") (k.image_pull (full_name image) (auth_of auths image) w)
    fatal_if_err k (codes "Image pull failed") (k.read_all v)

  unfoldable pub pull_unlisted : Bytes → W × List (List Bytes) → Outcome W
  unfolding is_listed fetch
  pull_unlisted image (w, images) =
      if is_listed image images then returned w else fetch image (k.credentials w)

  unfoldable pub pull : Bytes → W → Outcome W
  unfolding tagged pull_unlisted fatal_if_err fatal_if_failed
  pull image w = do
    v ← fatal_if_err k (codes "Create Docker client") (k.create_client w)
    r ← fatal_if_failed k (codes "List images") (k.image_list v)
    pull_unlisted (tagged image) r
