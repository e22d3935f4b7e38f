-- ===== src/Remote/Requests.antt =====
-- remote.go: the operations of a client as requests, and any run of them.
use zygote.Common.{List, [], ◌∷◌, Bytes, ◌≡◌, refl, ◌∙◌}
use zygote.Remote.{Ssh, create_remote_dir, run_command, read_file_from_remote, list_remote_dir}
use zygote.Remote.Copy.{copy_file_to_remote, copy_local_to_remote, copy_remote_to_local}
use zygote.Remote.Log.{Logged, logged, still_open}
use zygote.Remote.Released.{
  Even, create_remote_dir-Releases, run_command-Releases, read_file_from_remote-Releases,
  list_remote_dir-Releases,
}
use zygote.Remote.Released.Copies.{
  copy_file_to_remote-Releases, copy_local_to_remote-Releases, copy_remote_to_local-Releases,
}

pub data Request : Type 0 where
  make_dir : Bytes → Request
  command : Bytes → Request
  read : Bytes → Request
  list : Bytes → Request
  put : Bytes → Bytes → Request
  upload : Bytes → Bytes → Request
  download : Bytes → Bytes → Request

module _ {W : Type 0} (c : Ssh W) where
  -- The state after one request, whatever its result.
  unfoldable pub perform : Request → W → W
  perform (make_dir path) w = (create_remote_dir c path w).0
  perform (command text) w = (run_command c text w).0
  perform (read path) w = (read_file_from_remote c path w).0
  perform (list path) w = (list_remote_dir c path w).0
  perform (put content path) w = (copy_file_to_remote c content path w).0
  perform (upload local path) w = (copy_local_to_remote c local path w).0
  perform (download path local) w = (copy_remote_to_local c path local w).0

  unfoldable pub perform_all : List Request → W → W
  perform_all [] w = w
  perform_all (r ∷ rs) w = perform_all rs (perform r w)

module _ {W : Type 0} (c : Ssh W) where
  perform-still_open :
      (r : Request) (p : Logged W) → still_open (perform (logged c) r p).1 ≡ still_open p.1
  unfolding perform Even
  perform-still_open (make_dir path) p = create_remote_dir-Releases c path p
  perform-still_open (command text) p = run_command-Releases c text p
  perform-still_open (read path) p = read_file_from_remote-Releases c path p
  perform-still_open (list path) p = list_remote_dir-Releases c path p
  perform-still_open (put content path) p = copy_file_to_remote-Releases c content path p
  perform-still_open (upload local path) p = copy_local_to_remote-Releases c local path p
  perform-still_open (download path local) p = copy_remote_to_local-Releases c path local p

  -- After any run of requests, failed ones included, the sessions and the local files that are open
  -- are those that were open before it.
  pub perform_all-still_open :
      (rs : List Request) (p : Logged W)
      → still_open (perform_all (logged c) rs p).1 ≡ still_open p.1
  unfolding perform_all
  perform_all-still_open [] p = refl
  perform_all-still_open (r ∷ rs) p =
      perform_all-still_open rs (perform (logged c) r p) ∙ perform-still_open r p
