-- ===== src/Container/Input/Written.antt =====
-- What `Vol` has done when it returns.
use zygote.Strconv.{itoa}
use zygote.Common.{
  ℕ, ◌==◌, true, false, not, none, List, [], ◌∷◌, ◌++◌, Bytes, codes, length, pos, Outcome,
  returned, ◌>>=◌, bind-returned, Result, ok, err, ◌≡◌, refl, ap, ◌∙◌, Bool-cases, inl, inr,
}
use zygote.Strings.{bytes_eq}
use zygote.Errors.{Err}
use zygote.Backoff.{second}
use zygote.Container.{Docker, fatal_if_err, fatal_if_failed}
use zygote.Container.Pull.{pull}
use zygote.Container.Spawn.{Spawner, SpawnRequest, volume_binding, volume_there, network_there}
use zygote.Container.Spawn.Status.{fatal_if_err-ok, created-ok}
use zygote.Container.Input.{
  Inputs, ark_image, wrote, give_input, run_with_input, spawn_with_input, vol,
}

module _ {W : Type 0} (k : Docker W) (p : Spawner W) (n : Inputs W) where
  -- All of `text` has been written to a container, which has been started after that.
  pub record Fed (id text : Bytes) : Type 0 where
    pub before : W
    pub after : W
    pub running : W
    pub count : ℕ
    pub written : n.write_input id text before ≡ (after, ok count)
    pub whole : (count == length text) ≡ true
    pub started :
        k.container_start id (n.close_attached id (k.sleep (pos second) after)) ≡ (running, none)

  wrote-whole :
      (id text : Bytes) (r : W × Result Err ℕ) (w : W)
      → wrote k p n id text r ≡ returned w
      → (v : W) × (count : ℕ) × (r ≡ (v, ok count))
        × ((count == length text) ≡ true)
        × (n.close_attached id (k.sleep (pos second) v) ≡ w)
  unfolding wrote
  wrote-whole id text (v, err e) w h = cc
  wrote-whole id text (v, ok count) w h = elim (Bool-cases (count == length text)) [
    | inr lacks ↦ absurd (cc (rw lacks at h))
    | inl whole ↦
        let here : returned (n.close_attached id (k.sleep (pos second) v)) ≡ returned w =
          rw whole at h in
        (v, count, refl, whole, cc)
  ]

  run_with_input-Fed :
      (id input : Bytes) (w v : W)
      → bytes_eq input [] ≡ false
      → run_with_input k p n input (w, id) ≡ returned v
      → Fed id (input ++ b'\n' ∷ [])
  unfolding run_with_input give_input
  run_with_input-Fed id input w v some_input h =
      let text = input ++ b'\n' ∷ [] in
      let start = codes "Start container" in
      let last : W → Outcome W = λ c.
        (fatal_if_err k (codes "Wait for container") (n.wait_stopped id c) >>= λ v.
        returned (n.close_attached id v)) in
      let run : W → Outcome W = λ b. (fatal_if_err k start (k.container_start id b) >>= last) in
      let (a, _, h1) =
        bind-returned
          (fatal_if_err k (codes "Attach to container")
            (n.attach_input (not (bytes_eq input [])) id w))
          (λ a. (give_input k p n id input a >>= run)) v h in
      let (b, given, h2) = bind-returned (give_input k p n id input a) run v h1 in
      let (c, started, _) =
        bind-returned (fatal_if_err k start (k.container_start id b)) last v h2 in
      let giving : wrote k p n id text (n.write_input id text a) ≡ returned b =
        rw (give_input, some_input) at given in
      let (u, count, written, whole, ended) =
        wrote-whole id text (n.write_input id text a) b giving in
      record {
        before = a;
        after = u;
        running = c;
        count = count;
        written = written;
        whole = whole;
        started =
            ap (k.container_start id) ended
            ∙ fatal_if_err-ok k p start (k.container_start id b) c started;
      }

  volume_binding-single :
      (name path : Bytes) (w : W) (r : W × List Bytes)
      → volume_binding k p ((name, path) ∷ []) w ≡ returned r
      → r.1 ≡ (name ++ b':' ∷ path) ∷ []
  unfolding volume_binding
  volume_binding-single name path w r h =
      let (v, _, rest) =
        bind-returned (volume_there k p name (p.volume_inspect name w))
          (λ v. returned (v, (name ++ b':' ∷ path) ∷ [])) r h in
      cc

  -- If `Vol` returns, for a content that is not empty, then a container has been created in which the
  -- volume is mounted on the directory, with the command that copies its input to the file; all of the
  -- content and a newline have been written to it; and it has been started after that.
  pub vol-Fed :
      (tenant content volume dir file network : Bytes) (w v : W)
      → bytes_eq content [] ≡ false
      → vol k p n tenant content volume dir file network w ≡ returned v
      → (a : W) × (b : W) × (id : Bytes) × (request : SpawnRequest) × (p.spawn_create request a
          ≡ (b, ok id))
        × (request.binds ≡ (volume ++ b':' ∷ dir) ∷ [])
        × (request.cmd ≡ codes "bash" ∷ codes "-c" ∷ (codes "tee " ++ dir ++ b'/' ∷ file) ∷ [])
        × Fed id (content ++ b'\n' ∷ [])
  unfolding vol spawn_with_input
  vol-Fed tenant content volume dir file network w v some_content h =
      let cmd = codes "bash" ∷ codes "-c" ∷ (codes "tee " ++ dir ++ b'/' ∷ file) ∷ [] in
      let ask : W × List Bytes → SpawnRequest = λ r. record {
        image = ark_image k p n;
        cmd = cmd;
        port_bindings = [];
        binds = r.1;
        network_mode = network;
        name = tenant ++ b'-' ∷ itoa (p.now r.0);
      } in
      let create : W × List Bytes → Outcome (W × Bytes) =
        λ r. fatal_if_failed k (codes "Create container") (p.spawn_create (ask r) r.0) in
      let made : W × List Bytes → Outcome W = λ r. (create r >>= run_with_input k p n content) in
      let bind : W → Outcome W = λ b. (volume_binding k p ((volume, dir) ∷ []) b >>= made) in
      let join : W → Outcome W =
        λ a. (network_there k p network (p.network_inspect network a) >>= bind) in
      let (s, _, h0) =
        bind-returned (pull k (ark_image k p n) w)
          (λ v. (fatal_if_err k (codes "Create Docker client") (k.create_client v) >>= join)) v h in
      let (t, _, h1) =
        bind-returned (fatal_if_err k (codes "Create Docker client") (k.create_client s)) join v
          h0 in
      let (u, _, h2) =
        bind-returned (network_there k p network (p.network_inspect network t)) bind v h1 in
      let (r, bound, h3) = bind-returned (volume_binding k p ((volume, dir) ∷ []) u) made v h2 in
      let (c, created, h4) = bind-returned (create r) (run_with_input k p n content) v h3 in
      (
        r.0,
        c.0,
        c.1,
        ask r,
        created-ok k p (p.spawn_create (ask r) r.0) c.0 c.1 created,
        volume_binding-single volume dir u r bound,
        refl,
        run_with_input-Fed c.1 content c.0 v some_content h4,
      )
