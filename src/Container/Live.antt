-- ===== src/Container/Live.antt =====
-- container.go: waiting for containers ends well if they become healthy in time.
use zygote.Container.{Container}
