-- ===== src/Container/Laws.antt =====
-- When `StartContainer` reports that a container has been started, and what `Pull` downloads.
use zygote.Common.{none, List, Bytes, returned, Result, ok, err, ◌≡◌, ◌⊎◌}
use zygote.Container.{Docker, Container, CreateError, conflict, with_prefix}
use zygote.Container.Start.{clients_made}
use zygote.Container.Health.{AllHealthy}

module _ {W : Type 0} (k : Docker W) where
  -- The containers with a prefix in a list that Docker has given are all found healthy, in at most
  -- six hundred inspections each, and the last one leaves `v`.
  abbrev pub FoundHealthy : Bytes → W → Type 0
  FoundHealthy prefix v =
      (cs : List Container) × (u : W) × (x : W) × (y : W) × (k.container_list u ≡ (x, ok cs))
      × (clients_made k (with_prefix prefix cs) x ≡ returned y)
      × AllHealthy k 600 (with_prefix prefix cs) y v

  -- What the answer to the creation has led to.
  abbrev pub Up : Bytes → W × Result CreateError Bytes → W → Type 0
  Up name r v =
      (r ≡ (v, err conflict))
      ⊎ ((id : Bytes) × (u : W) × (x : W) × (r ≡ (u, ok id))
          × (k.container_start id u ≡ (x, none))
          × FoundHealthy name v)
