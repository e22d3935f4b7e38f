-- ===== src/Commands/Deinit.antt =====
-- lib/cluster/commands/deinit.go, with `List` of container.go: the containers and the volumes of a
-- tenant are removed.
pub mod Removed
use mathlib.Core.Option
use zygote.Common.{
  Bool, true, false, Option, none, some, List, [], ◌∷◌, ◌++◌, Bytes, codes, Outcome, returned,
  ◌>>=◌, Result, ok, err, length,
}
use zygote.Strings.{starts_with}
use zygote.Cluster.{Env, tenant_name}
use zygote.Container.{Docker, Container, fatal_if_err, fatal_if_failed}
use zygote.Container.Spawn.{Spawner, remove_container, remove_volume_prefix}
use zygote.Shell.Prompt.{yes_no}

module _ {W : Type 0} (k : Docker W) (p : Spawner W) where
  -- `List` without options.
  unfoldable pub list_containers : W → Outcome (W × List Container)
  list_containers w = do
    v ← fatal_if_err k (codes "Create Docker client") (k.create_client w)
    fatal_if_failed k (codes "List containers") (k.container_list v)

  -- The loop over the containers.
  unfoldable pub remove_matching : Bytes → List Container → W → Outcome W
  remove_matching prefix [] w = returned w
  remove_matching prefix (c ∷ cs) w = elim (starts_with c.name prefix) [
    | false ↦ remove_matching prefix cs w
    | true ↦ do v ← remove_container k p c.id w; remove_matching prefix cs v
  ]

  unfoldable pub remove_volumes_of : Bytes → Bool → W → Outcome W
  remove_volumes_of tenant false w = returned w
  remove_volumes_of tenant true w = remove_volume_prefix k p (tenant ++ b'-' ∷ []) w

  -- The part of the action that follows the question.
  unfoldable pub deinit_tenant : Bytes → Bool → W → Outcome W
  deinit_tenant tenant volumes w = do
    r ← list_containers w
    v ← remove_matching (b'/' ∷ (tenant ++ b'-' ∷ [])) r.1 r.0
    remove_volumes_of tenant volumes v

  unfoldable pub if_agreed : Env → Bool → Bool → W → Outcome W
  if_agreed env volumes false w = returned w
  if_agreed env volumes true w = deinit_tenant (tenant_name env) volumes w

  -- The action, with the lines of the standard input; `none` where the question is asked for ever.
  unfoldable pub deinit_action : Env → Bool → Bool → List Bytes → W → Option (Outcome W)
  deinit_action env true volumes lines w = some (if_agreed env volumes true w)
  deinit_action env false volumes lines w =
      Option.map (λ agreed. if_agreed env volumes agreed w) (yes_no (length lines) lines)
