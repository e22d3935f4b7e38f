-- ===== src/Remote/Dial.antt =====
-- remote.go: `NewSSHClient`. The network, the parsing of keys and the handshake are parameters.
use zygote.Common.{ℕ, List, [], ◌∷◌, ◌++◌, Bytes, codes, Result, ok, err}
use zygote.Errors.{Err}
use zygote.Cluster.{Env}
use zygote.Remote.{failed}

-- A connection to an agent, a key that signs and a client are known by numbers.
pub data AuthMethod : Type 0 where
  agent_signers : ℕ → AuthMethod
  public_keys : ℕ → AuthMethod

pub record Dialer (W : Type 0) : Type 0 where
  pub dial_agent : Bytes → W → W × Result Err ℕ
  pub read_file : Bytes → W → Result Err Bytes
  pub parse_private_key : Bytes → Result Err ℕ
  pub dial : Bytes → List AuthMethod → Bytes → W → W × Result Err ℕ

module _ {W : Type 0} (d : Dialer W) (env : Env) where
  key_method : Result Err Bytes → Result Err (List AuthMethod)
  unfolding failed
  key_method (err e) = err (failed (codes "failed to read private key: ") e)
  key_method (ok key) = elim (d.parse_private_key key) [
    | err e ↦ err (failed (codes "failed to parse private key: ") e)
    | ok signer ↦ ok (public_keys signer ∷ [])
  ]

  -- The agent is tried first; the key is read only where there is none.
  unfoldable pub auth_methods : W × Result Err ℕ → W × Result Err (List AuthMethod)
  unfolding key_method
  auth_methods (w, ok agent) = (w, ok (agent_signers agent ∷ []))
  auth_methods (w, err e) =
      (w, key_method (d.read_file (env (codes "HOME") ++ codes "/.ssh/id_aurora") w))

  dialled : W × Result Err ℕ → W × Result Err ℕ
  unfolding failed
  dialled (w, ok client) = (w, ok client)
  dialled (w, err e) = (w, err (failed (codes "failed to dial: ") e))

  with_methods : Bytes → Bytes → W × Result Err (List AuthMethod) → W × Result Err ℕ
  unfolding dialled
  with_methods user host (w, err e) = (w, err e)
  with_methods user host (w, ok methods) = dialled (d.dial user methods (host ++ codes ":22") w)

  unfoldable pub new_ssh_client : Bytes → Bytes → W → W × Result Err ℕ
  unfolding with_methods auth_methods
  new_ssh_client user host w =
      with_methods user host (auth_methods (d.dial_agent (env (codes "SSH_AUTH_SOCK")) w))
