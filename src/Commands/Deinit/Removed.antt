-- ===== src/Commands/Deinit/Removed.antt =====
-- deinit.go: which containers and volumes are removed.
use zygote.Common.{Bool, true, false, none, List, [], ◌∷◌, Bytes, ok, ◌≡◌}
use zygote.Strings.{starts_with}
use zygote.Container.{Docker, Container}
use zygote.Container.Spawn.{Spawner}
use zygote.Container.Spawn.Status.{Removes}

module _ {W : Type 0} (k : Docker W) (p : Spawner W) where
  -- A container has been stopped and removed.
  pub record Gone (id : Bytes) (w v : W) : Type 0 where
    pub connected : W
    pub stopped : W
    pub connects : k.create_client w ≡ (connected, none)
    pub stops : p.container_stop id connected ≡ (stopped, none)
    pub removes : p.container_remove id stopped ≡ (v, none)

  -- The containers of a list whose names have the prefix are removed, in order, and no others.
  pub data GoneAll (prefix : Bytes) : List Container → W → W → Type 0 where
    no_more : {w : W} → GoneAll prefix [] w w
    stays :
        {c : Container} {cs : List Container} {w v : W}
        → starts_with c.name prefix ≡ false
        → GoneAll prefix cs w v
        → GoneAll prefix (c ∷ cs) w v
    goes :
        {c : Container} {cs : List Container} {w u v : W}
        → starts_with c.name prefix ≡ true
        → Gone c.id w u
        → GoneAll prefix cs u v
        → GoneAll prefix (c ∷ cs) w v

  -- The same of the volumes, where they are to be removed.
  abbrev pub VolumesGone : Bytes → Bool → W → W → Type 0
  VolumesGone prefix false w v = w ≡ v
  VolumesGone prefix true w v =
      (u : W) × (x : W) × (names : List Bytes) × (p.volume_list u ≡ (x, ok names))
      × Removes k p prefix names x v
