-- ===== src/Container/Spawn/Status.antt =====
-- When `SpawnAndWait` reports success, and which volumes `RemoveVolumePrefix` removes.
use mathlib.Core.Path.{subst}
use zygote.Strconv.{itoa}
use zygote.Common.{
  true, false, Option, none, some, List, [], ◌∷◌, ◌++◌, Bytes, codes, ℤ, pos, eqb_ℤ, eqb_ℤ_iff,
  Outcome, returned, ◌>>=◌, bind-returned, Result, ok, err, ◌≡◌, refl, Bool-cases, inl, inr,
}
use zygote.Strings.{starts_with}
use zygote.Errors.{Err}
use zygote.Container.{Docker, fatal_if_err, fatal_if_failed}
use zygote.Container.Pull.{pull}
use zygote.Container.Spawn.{
  Spawner, SpawnRequest, exited_with, run_spawned, spawn_and_wait, volume_binding, remove_volumes,
}

module _ {W : Type 0} (k : Docker W) (p : Spawner W) where
  pub fatal_if_err-ok :
      (text : Bytes) (r : W × Option Err) (w : W)
      → fatal_if_err k text r ≡ returned w
      → r ≡ (w, none)
  unfolding fatal_if_err
  fatal_if_err-ok text (v, none) w h = cc
  fatal_if_err-ok text (v, some e) w h = cc

  exited_with-zero :
      (r : W × Result Err ℤ) (v : W) → exited_with k p r ≡ returned (v, none) → r ≡ (v, ok (pos 0))
  unfolding exited_with
  exited_with-zero (w, err e) v h = cc
  exited_with-zero (w, ok status) v h = elim (Bool-cases (eqb_ℤ status (pos 0))) [
    | inl zero_status ↦
        let same : status ≡ pos 0 = (eqb_ℤ_iff status (pos 0)).0 zero_status in
        let here : returned (w, none) ≡ returned (v, none) = rw zero_status at h in cc
    | inr other ↦ absurd (cc (rw other at h))
  ]

  -- A container that has been created ends with status 0, after its start.
  abbrev pub EndsWell : Bytes → W → Type 0
  EndsWell id v =
      (b : W) × (c : W) × (k.container_start id b ≡ (c, none))
      × (p.container_wait id c ≡ (v, ok (pos 0)))

  run_spawned-EndsWell :
      (image : Bytes) (w v : W) (id : Bytes)
      → run_spawned k p image (w, id) ≡ returned (v, none)
      → EndsWell id v
  unfolding run_spawned
  run_spawned-EndsWell image w v id h =
      let attach = codes "Attach to container" in
      let start = codes "Start container" in
      let last : W → Outcome (W × Option Err) = λ c. exited_with k p (p.container_wait id c) in
      let run : W → Outcome (W × Option Err) =
        λ b. (fatal_if_err k start (k.container_start id b) >>= last) in
      let (a, _, h1) =
        bind-returned (fatal_if_err k attach (p.container_attach id w))
          (λ a. (pull k image a >>= run)) (v, none) h in
      let (b, _, h2) = bind-returned (pull k image a) run (v, none) h1 in
      let (c, started, h3) =
        bind-returned (fatal_if_err k start (k.container_start id b)) last (v, none) h2 in
      (
        b,
        c,
        fatal_if_err-ok start (k.container_start id b) c started,
        exited_with-zero (p.container_wait id c) v h3,
      )

  pub created-ok :
      (r : W × Result Err Bytes) (w : W) (id : Bytes)
      → fatal_if_failed k (codes "Create container") r ≡ returned (w, id)
      → r ≡ (w, ok id)
  unfolding fatal_if_failed
  created-ok (v, ok i) w id h = cc
  created-ok (v, err e) w id h = cc

  -- If `SpawnAndWait` returns without an error, then the volumes have been bound, a container has been
  -- created with the command and these volumes, it has been started, and it has ended with status 0.
  spawn_and_wait-EndsWell :
      (image tenant : Bytes) (cmd : List Bytes) (ports volumes : List (Bytes × Bytes))
      (network : Bytes) (w v : W)
      → spawn_and_wait k p image tenant cmd ports volumes network w ≡ returned (v, none)
      → (a : W) × (binds : List Bytes) × (b : W) × (id : Bytes) × (request : SpawnRequest)
        × (volume_binding k p volumes w ≡ returned (a, binds))
        × (p.spawn_create request a ≡ (b, ok id))
        × (request.cmd ≡ cmd)
        × (request.binds ≡ binds)
        × EndsWell id v
  unfolding spawn_and_wait
  spawn_and_wait-EndsWell image tenant cmd ports volumes network w v h =
      let ask : W × List Bytes → SpawnRequest = λ r. record {
        image = image;
        cmd = cmd;
        port_bindings = ports;
        binds = r.1;
        network_mode = network;
        name = tenant ++ b'-' ∷ itoa (p.now r.0);
      } in
      let create : W × List Bytes → Outcome (W × Bytes) =
        λ r. fatal_if_failed k (codes "Create container") (p.spawn_create (ask r) r.0) in
      let (r, bound, h1) =
        bind-returned (volume_binding k p volumes w) (λ r. (create r >>= run_spawned k p image))
          (v, none) h in
      let (c, created, h2) = bind-returned (create r) (run_spawned k p image) (v, none) h1 in
      (
        r.0,
        r.1,
        c.0,
        c.1,
        ask r,
        bound,
        created-ok (p.spawn_create (ask r) r.0) c.0 c.1 created,
        refl,
        refl,
        run_spawned-EndsWell image c.0 v c.1 h2,
      )

  -- The volumes of a list that have the prefix are removed, in order, and no others.
  pub data Removes (prefix : Bytes) : List Bytes → W → W → Type 0 where
    all_seen : {w : W} → Removes prefix [] w w
    kept :
        {name : Bytes} {names : List Bytes} {w v : W}
        → starts_with name prefix ≡ false
        → Removes prefix names w v
        → Removes prefix (name ∷ names) w v
    removed :
        {name : Bytes} {names : List Bytes} {w u v : W}
        → starts_with name prefix ≡ true
        → p.volume_remove name w ≡ (u, none)
        → Removes prefix names u v
        → Removes prefix (name ∷ names) w v

  -- If the loop of `RemoveVolumePrefix` returns, it has removed exactly the volumes of the list whose
  -- name starts with the prefix.
  pub remove_volumes-Removes :
      (prefix : Bytes) (names : List Bytes) (w v : W)
      → remove_volumes k p prefix names w ≡ returned v
      → Removes prefix names w v
  unfolding remove_volumes
  remove_volumes-Removes prefix [] w v h =
      let same : w ≡ v = cc in subst (Removes prefix [] w) same all_seen
  remove_volumes-Removes prefix (name ∷ names) w v h = elim (Bool-cases (starts_with name prefix)) [
    | inl has ↦
        let step : (fatal_if_err k (codes "Remove volume") (p.volume_remove name w)
              >>= remove_volumes k p prefix names)
            ≡ returned v =
          rw (remove_volumes, has) at h in
        let (u, gone, rest) =
          bind-returned (fatal_if_err k (codes "Remove volume") (p.volume_remove name w))
            (remove_volumes k p prefix names) v step in
        removed has (fatal_if_err-ok (codes "Remove volume") (p.volume_remove name w) u gone)
          (remove_volumes-Removes prefix names u v rest)
    | inr lacks ↦
        kept lacks (remove_volumes-Removes prefix names w v (rw (remove_volumes, lacks) at h))
  ]
